-- ===== src/Update/KeptTunnel.antt =====
-- What the update of a forward on a tunnel does to the database, in terms of the changes of its row.
use flux_panel_plus.Prelude.{
  ℕ, ℤ, pos, eq_ℤ, ◌≡◌, not, ◌||◌, Option, some, ◌==◌, if◌then◌else◌, Bool-cases, inl, inr,
}
use flux_panel_plus.Prelude.Text.{Text, text_eq}
use flux_panel_plus.Model.{Tunnel, Forward, Node}
use flux_panel_plus.Model.Database.{Db}
use flux_panel_plus.Response.{
  answered-found, Result, ok, err, refuse_if, or_error, tunnel_not_found, tunnel_disabled,
}
use flux_panel_plus.Gost.Names.{build_service_name}
use flux_panel_plus.Gost.Commands.{World, Env}
use flux_panel_plus.Pause.Defs.{failed, set_status, get_tunnel, update_forward_status}
use flux_panel_plus.Forwards.Steps.{get_required_nodes, permission_for}
use flux_panel_plus.Create.Services.{create_gost_services}
use flux_panel_plus.Create.Quiet.{create_gost_services-KeepsDb}
use flux_panel_plus.Create.Handler.{listening_on, mark_failed}
use flux_panel_plus.Update.Services.{
  sync_gost_services, update_gost_services, delete_old_gost_services,
}
use flux_panel_plus.Update.Handler.{
  ForwardUpdateDto, update_permissions, updated_ports, updated_forward, set_updated, set_moved,
  update_row, save_moved, old_tunnel, create_or_move, replace_services, rebuild, hot_update,
  hot_or_rebuild, listener_same, addr_changed, refresh_services, deploy_update,
  update_tunnel_forward, or_else,
}
use flux_panel_plus.Update.Relates.{
  Preorder, Relates, same-Relates, KeepsDb-Relates, then-Relates, query-Relates, answered-Relates,
  if-Relates,
}
use flux_panel_plus.Update.Quiet.{
  sync_gost_services-KeepsDb, delete_old_gost_services-db, hot_update-db,
}
use flux_panel_plus.Actions.{change, perform, return, ◌>>◌}

-- The changes of the forward's row that an update makes.
pub record Allows (o : Preorder) (u : Forward) : Type 0 where
  pub fails : (db : Db) → o.R db (update_row u.id (set_status failed) db)
  pub moves : (db : Db) → o.R db (update_row u.id (set_moved u) db)
  pub updates : (db : Db) → o.R db (update_row u.id (set_updated u) db)

module _ (o : Preorder) (u : Forward) where
  pub mark_failed-Relates :
      (db : Db) (s : Result {0} Unit × World)
      → ((a : Db) → o.R a (update_row u.id (set_status failed) a))
      → o.R db s.1.db
      → o.R db (mark_failed u s).1.db
  unfolding mark_failed update_forward_status
  mark_failed-Relates db (ok x, w) fails h = h
  mark_failed-Relates db (err e, w) fails h = o.transitive db w.db _ h (fails w.db)

  save_moved-Relates :
      (db : Db) (s : Result {0} Unit × World)
      → Allows o u
      → o.R db s.1.db
      → o.R db (save_moved u s).1.db
  unfolding save_moved
  save_moved-Relates db (ok x, w) allowed h = h
  save_moved-Relates db (err e, w) allowed h = o.transitive db w.db _ h (allowed.moves w.db)

module _ (o : Preorder) (env : Env) (f u : Forward) (allowed : Allows o u) (t : Tunnel)
    (limiter : Option ℕ) (name : Text) (i : Node) (out : Option Node) where
  create_or_move-Relates : Relates o (create_or_move env f u t limiter name i out)
  unfolding create_or_move
  create_or_move-Relates w =
      save_moved-Relates o u w.db (create_gost_services env u t limiter name i out w) allowed (
        KeepsDb-Relates o (create_gost_services env u t limiter name i out)
          (create_gost_services-KeepsDb env u t limiter name i out) w)

  replace-Relates : Relates o (replace_services env f u t limiter name i out)
  unfolding replace_services
  replace-Relates =
      let create = create_or_move env f u t limiter name i out in
      query-Relates o (old_tunnel env f u t limiter name i out) _ (λ old.
        then-Relates o (perform (delete_old_gost_services env f old)) create
          (KeepsDb-Relates o (perform (delete_old_gost_services env f old))
            (delete_old_gost_services-db env f old))
          create_or_move-Relates)

  rebuild-Relates : Relates o (rebuild env f u t limiter name i out)
  unfolding rebuild update_gost_services
  rebuild-Relates w =
      mark_failed-Relates o u w.db (update_gost_services env u t limiter name i out w) allowed.fails
        (mark_failed-Relates o u w.db (sync_gost_services env u t limiter name i out w)
          allowed.fails
          (KeepsDb-Relates o (sync_gost_services env u t limiter name i out)
            (sync_gost_services-KeepsDb env u t limiter name i out) w))

  hot_or_rebuild-Relates : Relates o (hot_or_rebuild env f u t limiter name i out)
  unfolding hot_or_rebuild
  hot_or_rebuild-Relates w =
      let hot = hot_update env f u t limiter name i out out w in
      let kept = same-Relates o w.db hot.1.db (hot_update-db env f u t limiter name i out out w) in
      elim (Bool-cases hot.0) [
        | inl h ↦ rw h kept
        | inr n ↦ rw n (
            o.transitive w.db hot.1.db (rebuild env f u t limiter name i out hot.1).1.db kept
              (rebuild-Relates hot.1))
      ]

  refresh-Relates : Relates o (refresh_services env f u t limiter name i out)
  unfolding refresh_services
  refresh-Relates =
      let hot = hot_or_rebuild env f u t limiter name i out in
      let again = rebuild env f u t limiter name i out in
      let moved = addr_changed env f u t limiter name i out in
      let same = listener_same env f u t limiter name i out in
      if-Relates o same (if moved then hot else return tt) again
        (if-Relates o moved hot (return tt) hot_or_rebuild-Relates (λ w. o.reflexive w.db))
        rebuild-Relates

  deploy-Relates : Relates o (deploy_update env f u t limiter name i out)
  unfolding deploy_update
  deploy-Relates =
      if-Relates o (not (f.tunnel_id == u.tunnel_id) || not (text_eq f.listen_ip u.listen_ip))
        (replace_services env f u t limiter name i out)
        (refresh_services env f u t limiter name i out) replace-Relates refresh-Relates

  deploy_and_set-Relates :
      Relates o
        (deploy_update env f u t limiter name i out >> change (update_row u.id (set_updated u)))
  deploy_and_set-Relates =
      then-Relates o (deploy_update env f u t limiter name i out)
        (change (update_row u.id (set_updated u))) deploy-Relates (λ w. allowed.updates w.db)

module _ (o : Preorder) (env : Env) (d : ForwardUpdateDto) (user_id : ℕ) (role_id : ℤ)
    (f : Forward) where
  pub update_tunnel-Relates :
      (w : World)
      → ((t : Tunnel)
          → get_tunnel w.db d.tunnel_id ≡ some t
          → (ports : ℕ × ℕ) → Allows o (updated_forward env.now d f ports))
      → o.R w.db (update_tunnel_forward env d user_id role_id f w).1.db
  unfolding update_tunnel_forward
  update_tunnel-Relates w allowed =
      answered-Relates o (λ db. or_error (get_tunnel db d.tunnel_id) tunnel_not_found) _ w
        (λ t found.
          query-Relates o (λ db. refuse_if (not (eq_ℤ t.status (pos 1))) tunnel_disabled) _
            (λ x.
              query-Relates o (λ db. update_permissions env.now db user_id role_id d f t) _
                (λ p.
                  query-Relates o (λ db. permission_for db user_id role_id f t) _
                    (λ ut.
                      query-Relates o (λ db. updated_ports db d f t) _
                        (λ ports.
                          query-Relates o (λ db. get_required_nodes db t) _
                            (λ nodes.
                              let u = updated_forward env.now d f ports in
                              let a =
                                allowed t
                                  (answered-found (get_tunnel w.db d.tunnel_id) tunnel_not_found
                                    found)
                                  ports in
                              deploy_and_set-Relates o env f u a (listening_on u.listen_ip t) p.0
                                (build_service_name u.id u.user_id (or_else p.1 ut)) nodes.0
                                nodes.1)))))
            w)
