-- ===== src/Forwards/Commits.antt =====
-- The handlers change the database only where they succeed, and then by one update.
use flux_panel_plus.Prelude.{
  ℕ, ℤ, pos, eq_ℤ, ◌≡◌, refl, subst, Bool, true, false, not, Option, arith, ◌==◌, if◌then◌else◌,
  Option-cases, inl, inr,
}
use flux_panel_plus.Prelude.Table.{first_where, first_where_sound, by_id}
use flux_panel_plus.Model.{UserTunnel, Tunnel, Forward}
use flux_panel_plus.Model.Database.{Db}
use flux_panel_plus.Response.{
  ok, refuse_if, or_error, forward_not_found, tunnel_not_found, route_disabled, tunnel_disabled,
}
use flux_panel_plus.Gost.Names.{build_service_name}
use flux_panel_plus.Gost.Commands.{World, Env}
use flux_panel_plus.Pause.Defs.{active, paused, get_tunnel}
use flux_panel_plus.Forwards.Steps.{
  validate_forward_exists, check_user_enabled, permission_for, get_required_nodes,
  set_forward_status, set_gost_services, load_route_with_hops,
}
use flux_panel_plus.Forwards.Routes.{
  set_route_forward_services_paused, pause_route_forward, resume_route_forward,
}
use flux_panel_plus.Forwards.Handlers.{
  resume_permission, set_tunnel_forward, pause_tunnel_forward, pause_forward, resume_tunnel_forward,
  resume_forward,
}
use flux_panel_plus.Forwards.Commands.{set_gost_services-KeepsDb, set_route_paused-KeepsDb}
use flux_panel_plus.Actions.{
  then_change, after_query, query, is_ok, Commits, bind-Commits, if-Commits,
}

pub found_id :
    (db : Db) (id user_id : ℕ) (role_id : ℤ) {f : Forward}
    → or_error (validate_forward_exists db id user_id role_id) forward_not_found ≡ ok f
    → f.id ≡ id
unfolding validate_forward_exists
found_id db id user_id role_id {f} e =
    elim (Option-cases (first_where (by_id (λ (r : Forward). r.id) id) db.forwards)) [
      | inl n ↦ absurd (ground (arith, n, e))
      | inr (r, s) ↦
          ground (arith, s, e, first_where_sound (by_id (λ (r : Forward). r.id) id) db.forwards s)
    ]

module _ (env : Env) (id user_id : ℕ) (role_id : ℤ) where
  set_tunnel-Commits :
      (pausing : Bool) (status : ℤ) (f : Forward) (t : Tunnel) (ut : Option UserTunnel)
      → Commits
          (set_forward_status env.now id status)
          (set_tunnel_forward env id user_id role_id pausing status f t ut)
  unfolding set_tunnel_forward
  set_tunnel-Commits pausing status f t ut =
      let name = build_service_name f.id f.user_id ut in
      let set_status = set_forward_status env.now id status in
      after_query set_status (λ db. get_required_nodes db t) _
        (λ nodes.
          then_change (set_gost_services env pausing t nodes.0 nodes.1 name f.listen_ip) set_status
            (set_gost_services-KeepsDb env pausing t nodes.0 nodes.1 name f.listen_ip))

  pause_tunnel-Commits :
      (f : Forward)
      → Commits
          (set_forward_status env.now id paused)
          (pause_tunnel_forward env id user_id role_id f)
  unfolding pause_tunnel_forward
  pause_tunnel-Commits f =
      let set_status = set_forward_status env.now id paused in
      after_query set_status (λ db. or_error (get_tunnel db f.tunnel_id) tunnel_not_found) _
        (λ t.
          after_query set_status (λ db. permission_for db user_id role_id f t) _
            (λ ut. set_tunnel-Commits true paused f t ut))

  pause_route-Commits :
      (f : Forward) → Commits (set_forward_status env.now f.id paused) (pause_route_forward env f)
  unfolding pause_route_forward
  pause_route-Commits f =
      then_change (set_route_forward_services_paused env f true)
        (set_forward_status env.now f.id paused) (set_route_paused-KeepsDb env f true)

  pause-Commits :
      Commits (set_forward_status env.now id paused) (pause_forward env id user_id role_id)
  unfolding pause_forward
  pause-Commits =
      let set_status = set_forward_status env.now id paused in
      after_query set_status (λ db. check_user_enabled db user_id role_id) _
        (λ u.
          bind-Commits set_status
            (query
              (λ db. or_error (validate_forward_exists db id user_id role_id) forward_not_found))
            _ (λ w. refl)
            (λ w f e. if-Commits set_status (f.route_id == 0) _ _ (pause_tunnel-Commits f) (
              subst (λ k. Commits (set_forward_status env.now k paused) (pause_route_forward env f))
                (found_id w.db id user_id role_id e) (pause_route-Commits f))))

  resume_tunnel-Commits :
      (f : Forward)
      → Commits
          (set_forward_status env.now id active)
          (resume_tunnel_forward env id user_id role_id f)
  unfolding resume_tunnel_forward
  resume_tunnel-Commits f =
      let set_status = set_forward_status env.now id active in
      after_query set_status (λ db. or_error (get_tunnel db f.tunnel_id) tunnel_not_found) _
        (λ t.
          after_query set_status (λ db. refuse_if (not (eq_ℤ t.status (pos 1))) tunnel_disabled) _
            (λ u.
              after_query set_status (λ db. resume_permission env.now db user_id role_id f t) _
                (λ ut. set_tunnel-Commits false active f t ut)))

  resume_route-Commits :
      (f : Forward) → Commits (set_forward_status env.now f.id active) (resume_route_forward env f)
  unfolding resume_route_forward
  resume_route-Commits f =
      let set_status = set_forward_status env.now f.id active in
      after_query set_status (λ db. load_route_with_hops db f.route_id) _
        (λ loaded.
          after_query set_status
            (λ db. refuse_if (not (eq_ℤ loaded.0.status (pos 1))) route_disabled) _
            (λ u.
              then_change (set_route_forward_services_paused env f false) set_status
                (set_route_paused-KeepsDb env f false)))

  resume-Commits :
      Commits (set_forward_status env.now id active) (resume_forward env id user_id role_id)
  unfolding resume_forward
  resume-Commits =
      let set_status = set_forward_status env.now id active in
      after_query set_status (λ db. check_user_enabled db user_id role_id) _
        (λ u.
          bind-Commits set_status
            (query
              (λ db. or_error (validate_forward_exists db id user_id role_id) forward_not_found))
            _ (λ w. refl)
            (λ w f e. if-Commits set_status (f.route_id == 0) _ _ (resume_tunnel-Commits f) (
              subst
                (λ k. Commits (set_forward_status env.now k active) (resume_route_forward env f))
                (found_id w.db id user_id role_id e) (resume_route-Commits f))))

  -- A pause that succeeds sets the status and the time of change of the forward, and nothing else of
  -- the database; one that fails, wherever it stops, leaves the database as it was.
  pub pause_forward-db :
      (w : World)
      → let (r, w') = pause_forward env id user_id role_id w in
        w'.db ≡ (if is_ok r then set_forward_status env.now id paused w.db else w.db)
  pause_forward-db = pause-Commits

  -- A resumption that succeeds sets the status and the time of change of the forward, and nothing
  -- else of the database; one that fails, wherever it stops, leaves the database as it was.
  pub resume_forward-db :
      (w : World)
      → let (r, w') = resume_forward env id user_id role_id w in
        w'.db ≡ (if is_ok r then set_forward_status env.now id active w.db else w.db)
  resume_forward-db = resume-Commits
