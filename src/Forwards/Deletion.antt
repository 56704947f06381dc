-- ===== src/Forwards/Deletion.antt =====
-- A deletion removes the rows of a forward only where it succeeds.
use flux_panel_plus.Prelude.{
  ℕ, ℤ, ◌≡◌, refl, ap, subst, Bool, true, false, ◌&&◌, Option, some, ◌==◌, if◌then◌else◌,
}
use flux_panel_plus.Model.{UserTunnel, Tunnel, Forward, Node}
use flux_panel_plus.Model.Database.{Db}
use flux_panel_plus.Response.{Result, ok, err, or_error, forward_not_found, tunnel_not_found}
use flux_panel_plus.Gost.Names.{build_service_name}
use flux_panel_plus.Gost.Commands.{World, Env}
use flux_panel_plus.Pause.Defs.{get_tunnel}
use flux_panel_plus.Forwards.Steps.{
  validate_forward_exists, permission_for, get_required_nodes, delete_forward_row,
  delete_gost_services_with_ip,
}
use flux_panel_plus.Forwards.Routes.{
  cleanup_route_forward_services, delete_route_row, delete_route_forward,
}
use flux_panel_plus.Forwards.Handlers.{
  cleanup_if_online, out_online, delete_tunnel_forward, delete_forward,
}
use flux_panel_plus.Forwards.Commands.{delete_gost_services-KeepsDb, cleanup_route-KeepsDb}
use flux_panel_plus.Actions.{
  then_change, after_query, Action, return, change, is_ok, KeepsDb, Commits, if-KeepsDb, ◌>>◌,
}
use flux_panel_plus.Forwards.Commits.{found_id}

choose-Commits :
    (b : Bool) (m n : Action {0} Unit) (g h : Db → Db)
    → Commits g m
    → Commits h n
    → (w : World)
    → let (r, w') = (if b then m else n) w in
      w'.db ≡ (if is_ok r then if b then g w.db else h w.db else w.db)
choose-Commits true m n g h k l w = k w
choose-Commits false m n g h k l w = l w

module _ (env : Env) (id user_id : ℕ) (role_id : ℤ) where
  cleanup_if_online-KeepsDb :
      (f : Forward) (t : Tunnel) (ut : Option UserTunnel) (nodes : Result (Node × Option Node))
      → KeepsDb (cleanup_if_online env id user_id role_id f t ut nodes)
  unfolding cleanup_if_online
  cleanup_if_online-KeepsDb f t ut (err e) = λ w. refl
  cleanup_if_online-KeepsDb f t ut (ok (i, o)) =
      let name = build_service_name f.id f.user_id ut in
      if-KeepsDb (env.is_node_online i.id && out_online env o)
        (delete_gost_services_with_ip env t i o name f.listen_ip) (return tt)
        (delete_gost_services-KeepsDb env t i o name f.listen_ip) (λ w. refl)

  delete_tunnel-Commits :
      (f : Forward)
      → Commits (delete_forward_row id) (delete_tunnel_forward env id user_id role_id f)
  unfolding delete_tunnel_forward
  delete_tunnel-Commits f =
      let delete = delete_forward_row id in
      after_query delete (λ db. or_error (get_tunnel db f.tunnel_id) tunnel_not_found) _
        (λ t.
          after_query delete (λ db. permission_for db user_id role_id f t) _
            (λ ut.
              after_query delete (λ db. ok (get_required_nodes db t))
                (λ nodes. cleanup_if_online env id user_id role_id f t ut nodes >> change delete)
                (λ nodes.
                  then_change (cleanup_if_online env id user_id role_id f t ut nodes) delete
                    (cleanup_if_online-KeepsDb f t ut nodes))))

  delete_route-Commits :
      (f : Forward) → Commits (delete_route_row f.id) (delete_route_forward env f)
  unfolding delete_route_forward
  delete_route-Commits f =
      then_change (cleanup_route_forward_services env f) (delete_route_row f.id)
        (cleanup_route-KeepsDb env f)

  -- For a forward that the caller may change, a deletion that succeeds removes its row, and its route
  -- ports where it is on a route, and nothing else; one that fails leaves the database as it was.
  pub delete_forward-db :
      (w : World) {f : Forward}
      → validate_forward_exists w.db id user_id role_id ≡ some f
      → let (r, w') = delete_forward env id user_id role_id w in
        w'.db ≡ (
          if is_ok r
          then if f.route_id == 0 then delete_forward_row id w.db else delete_route_row id w.db
          else w.db)
  unfolding delete_forward
  delete_forward-db w {f} e =
      let same : f.id ≡ id =
        found_id w.db id user_id role_id (ap (λ o. or_error o forward_not_found) e) in
      rw e (
        choose-Commits (f.route_id == 0) (delete_tunnel_forward env id user_id role_id f)
          (delete_route_forward env f) (delete_forward_row id) (delete_route_row id)
          (delete_tunnel-Commits f)
          (subst (λ k. Commits (delete_route_row k) (delete_route_forward env f)) same
            (delete_route-Commits f))
          w)
