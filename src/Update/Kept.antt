-- ===== src/Update/Kept.antt =====
-- What the update of a forward does to the database, in terms of the changes of its rows.
use flux_panel_plus.Prelude.{
  Bool, ℕ, ℤ, pos, eq_ℤ, ◌≡◌, true, false, not, ◌&&◌, none, some, List, ◌==◌, if◌then◌else◌,
  Option-cases, inl, inr,
}
use flux_panel_plus.Model.{Tunnel, Forward, Route, RouteHop, ForwardRoutePort}
use flux_panel_plus.Model.Database.{Db}
use flux_panel_plus.Response.{
  refused-false, Result-cases, ok, refuse_if, route_admin_only, route_required, route_disabled,
}
use flux_panel_plus.Gost.Names.{build_service_name}
use flux_panel_plus.Gost.Commands.{World, Env}
use flux_panel_plus.Ports.Routes.{allocate_route_forward_ports}
use flux_panel_plus.Pause.Defs.{failed, set_status, get_tunnel}
use flux_panel_plus.Permissions.Defs.{is_admin}
use flux_panel_plus.Forwards.Steps.{
  load_route_with_hops, validate_forward_exists, check_user_enabled,
}
use flux_panel_plus.Forwards.Routes.{cleanup_route_forward_services}
use flux_panel_plus.Forwards.Commands.{cleanup_route-KeepsDb}
use flux_panel_plus.Create.RouteQuiet.{create_route_gost_services-KeepsDb}
use flux_panel_plus.Create.Route.{bind_ports}
use flux_panel_plus.Create.RouteServices.{create_route_gost_services}
use flux_panel_plus.Address.Defs.{Resolver, validate_remote_addr}
use flux_panel_plus.Update.Handler.{
  ForwardUpdateDto, updated_forward, update_row, update_tunnel_forward,
}
use flux_panel_plus.Update.Route.{
  updated_route_forward, replace_route_rows, requested_route, redeploy_route_forward,
  update_route_forward, replace_route_forward, requested_port,
}
use flux_panel_plus.Update.Entry.{update_on_route_or_tunnel, update_forward}
use flux_panel_plus.Update.Relates.{
  Preorder, Relates, KeepsDb-Relates, then-Relates, query-Relates, answered-Relates,
}
use flux_panel_plus.Update.KeptTunnel.{Allows, mark_failed-Relates, update_tunnel-Relates}
use flux_panel_plus.Actions.{Action, change, ◌>>◌}

-- The transaction of an update on a route.
abbrev pub replaced :
    Env → (ℕ → ℕ) → ForwardUpdateDto → Forward → Route → ℕ × List ForwardRoutePort → Db → Db
replaced env port_ids d f route ports =
    replace_route_rows (updated_route_forward env.now d f (requested_route d f) ports)
      (bind_ports env.now port_ids f.id route.id 0 ports.1)

module _ (o : Preorder) (env : Env) (port_ids : ℕ → ℕ) (d : ForwardUpdateDto) (f : Forward)
    (role_id : ℤ) where
  redeploy-Relates :
      (u : Forward) (route : Route) (hops : List RouteHop) (bound : List ForwardRoutePort)
      → ((db : Db) → o.R db (update_row u.id (set_status failed) db))
      → Relates o (redeploy_route_forward env u route hops bound)
  unfolding redeploy_route_forward
  redeploy-Relates u route hops bound fails w =
      let name = build_service_name u.id u.user_id none in
      let create = create_route_gost_services env u route bound none name hops in
      mark_failed-Relates o u w.db (create w) fails (
        KeepsDb-Relates o create
          (create_route_gost_services-KeepsDb env u route bound none name hops) w)

  replace_route-Relates :
      (route : Route) (hops : List RouteHop) (ports : ℕ × List ForwardRoutePort)
      → ((db : Db) → o.R db (update_row f.id (set_status failed) db))
      → ((db : Db) → o.R db (replaced env port_ids d f route ports db))
      → Relates o (replace_route_forward env port_ids d f route hops ports)
  unfolding replace_route_forward
  replace_route-Relates route hops ports fails replaces =
      let u = updated_route_forward env.now d f (requested_route d f) ports in
      let bound = bind_ports env.now port_ids f.id route.id 0 ports.1 in
      let replace = change (replaced env port_ids d f route ports) in
      let redeploy = redeploy_route_forward env u route hops bound in
      then-Relates o (cleanup_route_forward_services env f) (replace >> redeploy)
        (KeepsDb-Relates o (cleanup_route_forward_services env f) (cleanup_route-KeepsDb env f))
        (then-Relates o replace redeploy (λ w. replaces w.db)
          (redeploy-Relates u route hops bound fails))

  pub update_route-Relates :
      (w : World)
      → ((db : Db) → o.R db (update_row f.id (set_status failed) db))
      → ((route : Route) (hops : List RouteHop) (ports : ℕ × List ForwardRoutePort)
          → load_route_with_hops w.db (requested_route d f) ≡ ok (route, hops)
          → (requested_route d f == 0) ≡ false
          → (db : Db) → o.R db (replaced env port_ids d f route ports db))
      → o.R w.db (update_route_forward env port_ids d f role_id w).1.db
  unfolding update_route_forward
  update_route-Relates w fails replaces =
      answered-Relates o (λ db. refuse_if (not (is_admin role_id)) route_admin_only) _ w
        (λ x admin.
          answered-Relates o (λ db. refuse_if (requested_route d f == 0) route_required) _ w
            (λ y given.
              answered-Relates o (λ db. load_route_with_hops db (requested_route d f)) _ w
                (λ loaded found.
                  query-Relates o
                    (λ db. refuse_if (not (eq_ℤ loaded.0.status (pos 1))) route_disabled) _
                    (λ z.
                      query-Relates o
                        (λ db.
                          allocate_route_forward_ports db loaded.0 loaded.1
                            (some (requested_port d.in_port f)) (some f.id))
                        _
                        (λ ports. replace_route-Relates loaded.0 loaded.1 ports fails (
                          replaces loaded.0 loaded.1 ports found
                            (refused-false (requested_route d f == 0) route_required given))))
                    w)))

-- What is allowed of the changes that an update of the forward makes, from a database with the tunnel
-- or the route that is asked for.
pub record AllowsUpdate (o : Preorder) (env : Env) (port_ids : ℕ → ℕ) (d : ForwardUpdateDto)
    (f : Forward) (start : Db) : Type 0 where
  pub on_tunnel :
      (t : Tunnel)
      → get_tunnel start d.tunnel_id ≡ some t
      → (ports : ℕ × ℕ) → Allows o (updated_forward env.now d f ports)
  pub fails : (db : Db) → o.R db (update_row f.id (set_status failed) db)
  pub on_route :
      (route : Route) (hops : List RouteHop) (ports : ℕ × List ForwardRoutePort)
      → load_route_with_hops start (requested_route d f) ≡ ok (route, hops)
      → (requested_route d f == 0) ≡ false
      → (db : Db) → o.R db (replaced env port_ids d f route ports db)

module _ (o : Preorder) (env : Env) (lookup : Resolver) (port_ids : ℕ → ℕ) (d : ForwardUpdateDto)
    (user_id : ℕ) (role_id : ℤ) where
  either-Relates :
      (b : Bool) (m n : Action {0} Unit) (w : World)
      → o.R w.db (m w).1.db
      → o.R w.db (n w).1.db
      → o.R w.db ((if b then m else n) w).1.db
  either-Relates true m n w h k = h
  either-Relates false m n w h k = k

  update_either-Relates :
      (f : Forward) (w : World)
      → AllowsUpdate o env port_ids d f w.db
      → o.R w.db (update_on_route_or_tunnel env lookup port_ids d user_id role_id f w).1.db
  unfolding update_on_route_or_tunnel
  update_either-Relates f w allowed =
      either-Relates ((f.route_id == 0) && (d.route_id == 0))
        (update_tunnel_forward env d user_id role_id f)
        (update_route_forward env port_ids d f role_id) w
        (update_tunnel-Relates o env d user_id role_id f w allowed.on_tunnel)
        (update_route-Relates o env port_ids d f role_id w allowed.fails allowed.on_route)

  -- An update relates the databases before and after it by any relation that allows the changes which
  -- an update of the found forward makes.
  pub update_forward-Relates :
      (w : World)
      → ((f : Forward)
          → validate_forward_exists w.db d.id user_id role_id ≡ some f
          → AllowsUpdate o env port_ids d f w.db)
      → o.R w.db (update_forward env lookup port_ids d user_id role_id w).1.db
  unfolding update_forward
  update_forward-Relates w allowed = elim (Result-cases (check_user_enabled w.db user_id role_id)) [
    | inr (x, e) ↦ rw e (o.reflexive w.db)
    | inl (x, e) ↦ elim (Result-cases (validate_remote_addr lookup d.remote_addr role_id)) [
      | inr (y, v) ↦ rw (e, v) (o.reflexive w.db)
      | inl (y, v) ↦ elim (Option-cases (validate_forward_exists w.db d.id user_id role_id)) [
        | inl n ↦ rw (e, v, n) (o.reflexive w.db)
        | inr (f, found) ↦ rw (e, v, found) (update_either-Relates f w (allowed f found))
      ]
    ]
  ]
