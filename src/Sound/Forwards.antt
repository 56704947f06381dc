-- ===== src/Sound/Forwards.antt =====
-- The handlers of forwards keep the tables sound.
use flux_panel_plus.Prelude.{
  ℕ, ℤ, ◌≡◌, sym, subst, Bool, true, false, some, List, [], ◌∷◌, ◌++◌, All-map, All-append, arith,
  ◌==◌, Option-cases, inl, inr, if◌then◌else◌,
}
use flux_panel_plus.Prelude.Table.{
  first_where, update_where, delete_where, by_id, has_id_found, All-update, All-delete,
}
use flux_panel_plus.Model.{Tunnel, Forward, Route, RouteHop, ForwardRoutePort}
use flux_panel_plus.Model.Database.{Db}
use flux_panel_plus.Response.{ok}
use flux_panel_plus.Gost.Commands.{Env}
use flux_panel_plus.Pause.Defs.{active, paused, get_tunnel}
use flux_panel_plus.Forwards.Steps.{
  load_route_with_hops, validate_forward_exists, set_forward_status, delete_forward_row,
}
use flux_panel_plus.Forwards.Routes.{delete_route_row}
use flux_panel_plus.Forwards.Handlers.{pause_forward, resume_forward, delete_forward}
use flux_panel_plus.Forwards.Commits.{pause_forward-db, resume_forward-db}
use flux_panel_plus.Forwards.Deletion.{delete_forward-db}
use flux_panel_plus.Create.Outcome.{settled_row}
use flux_panel_plus.Actions.{is_ok}
use flux_panel_plus.Update.Relates.{Relates}
use flux_panel_plus.Sound.Defs.{has_tunnel, has_route, has_target, IsSound, sound, forwards-IsSound}

pub found-has_tunnel :
    (db : Db) (id : ℕ) {t : Tunnel} → get_tunnel db id ≡ some t → has_tunnel db id ≡ true
unfolding get_tunnel
found-has_tunnel db id h = has_id_found (λ (t : Tunnel). t.id) id db.tunnels h

pub loaded-has_route :
    (db : Db) (id : ℕ) {loaded : Route × List RouteHop}
    → load_route_with_hops db id ≡ ok loaded
    → has_route db id ≡ true
unfolding load_route_with_hops
loaded-has_route db id {loaded} h =
    elim (Option-cases (first_where (by_id (λ (r : Route). r.id) id) db.routes)) [
      | inl n ↦ absurd (ground (arith, n, h))
      | inr (r, found) ↦ has_id_found (λ (r : Route). r.id) id db.routes found
    ]

-- A change of a forward that leaves it a target.
pub update_forwards-IsSound :
    (db : Db) (id : ℕ) (g : Forward → Forward) (ports : List ForwardRoutePort)
    → ((f : Forward) → has_target db f ≡ true → has_target db (g f) ≡ true)
    → IsSound db
    → IsSound (record db {
      forwards = update_where (by_id (λ (f : Forward). f.id) id) g db.forwards;
      route_ports = ports;
    })
update_forwards-IsSound db id g ports keep s =
    forwards-IsSound db (update_where (by_id (λ (f : Forward). f.id) id) g db.forwards) ports
      (All-update (λ f. has_target db f ≡ true) (by_id (λ (f : Forward). f.id) id) g db.forwards
        keep s.forward_targets)
      s

pub delete_forwards-IsSound :
    (db : Db) (id : ℕ) (ports : List ForwardRoutePort)
    → IsSound db
    → IsSound (record db {
      forwards = delete_where (by_id (λ (f : Forward). f.id) id) db.forwards;
      route_ports = ports;
    })
delete_forwards-IsSound db id ports s =
    forwards-IsSound db (delete_where (by_id (λ (f : Forward). f.id) id) db.forwards) ports
      (All-delete (λ f. has_target db f ≡ true) (by_id (λ (f : Forward). f.id) id) db.forwards
        (All-map (λ f. has_target db f ≡ true) _ db.forwards (λ f h n. h) s.forward_targets))
      s

pub add_forward-IsSound :
    (db : Db) (f : Forward) (b : Bool) (ports : List ForwardRoutePort)
    → has_target db f ≡ true
    → IsSound db
    → IsSound (record db { forwards = db.forwards ++ settled_row b f ∷ []; route_ports = ports })
add_forward-IsSound db f b ports target s =
    forwards-IsSound db (db.forwards ++ settled_row b f ∷ []) ports
      (All-append (λ f. has_target db f ≡ true) db.forwards (settled_row b f ∷ []) s.forward_targets
        (settled-target b, tt))
      s
  where
    settled-target : (b : Bool) → has_target db (settled_row b f) ≡ true
    settled-target true = target
    settled-target false = target

committed-IsSound :
    (b : Bool) (old new : Db) → IsSound old → IsSound new → IsSound (if b then new else old)
committed-IsSound true old new s s' = s'
committed-IsSound false old new s s' = s

module _ (env : Env) (id user_id : ℕ) (role_id : ℤ) where
  status-IsSound :
      (db : Db) (status : ℤ) → IsSound db → IsSound (set_forward_status env.now id status db)
  status-IsSound db status s = update_forwards-IsSound db id _ db.route_ports (λ f h. h) s

  pub pause_forward-IsSound : Relates sound (pause_forward env id user_id role_id)
  pause_forward-IsSound w s = subst IsSound (sym (pause_forward-db env id user_id role_id w)) (
      committed-IsSound (is_ok (pause_forward env id user_id role_id w).0) w.db
        (set_forward_status env.now id paused w.db) s (status-IsSound w.db paused s))

  pub resume_forward-IsSound : Relates sound (resume_forward env id user_id role_id)
  resume_forward-IsSound w s = subst IsSound (sym (resume_forward-db env id user_id role_id w)) (
      committed-IsSound (is_ok (resume_forward env id user_id role_id w).0) w.db
        (set_forward_status env.now id active w.db) s (status-IsSound w.db active s))

  delete_either-IsSound :
      (b : Bool) (db : Db)
      → IsSound db
      → IsSound (if b then delete_forward_row id db else delete_route_row id db)
  delete_either-IsSound true db s = delete_forwards-IsSound db id db.route_ports s
  delete_either-IsSound false db s =
      delete_forwards-IsSound db id (delete_where (λ p. p.forward_id == id) db.route_ports) s

  pub delete_forward-IsSound : Relates sound (delete_forward env id user_id role_id)
  unfolding delete_forward
  delete_forward-IsSound w s =
      elim (Option-cases (validate_forward_exists w.db id user_id role_id)) [
        | inl n ↦ rw n s
        | inr (f, found) ↦ subst IsSound (sym (delete_forward-db env id user_id role_id w found)) (
            committed-IsSound (is_ok (delete_forward env id user_id role_id w).0) w.db _ s
              (delete_either-IsSound (f.route_id == 0) w.db s))
      ]
