-- ===== src/Create/RouteOutcome.antt =====
-- What creating a forward on a route leaves in the database.
use flux_panel_plus.Prelude.{
  ℕ, ℤ, pos, eq_ℤ, eq_ℤ_iff, ◌≡◌, ◌⊎◌, refl, true, false, none, List, ◌++◌, Bool-cases, inl, inr,
}
use flux_panel_plus.Prelude.Text.{Text}
use flux_panel_plus.Prelude.Table.{has_id}
use flux_panel_plus.Model.{Forward, Route, RouteHop, ForwardRoutePort}
use flux_panel_plus.Response.{Result, ok, Result-cases}
use flux_panel_plus.Gost.Names.{build_service_name}
use flux_panel_plus.Gost.Commands.{World, Env}
use flux_panel_plus.Ports.Routes.{allocate_route_forward_ports}
use flux_panel_plus.Permissions.Defs.{is_admin}
use flux_panel_plus.Forwards.Steps.{load_route_with_hops}
use flux_panel_plus.Actions.{is_ok}
use flux_panel_plus.Create.Handler.{ForwardDto}
use flux_panel_plus.Create.RouteServices.{create_route_gost_services}
use flux_panel_plus.Create.RouteQuiet.{create_route_gost_services-KeepsDb}
use flux_panel_plus.Create.Route.{
  last_port, new_route_forward, bind_ports, create_route_rows, deploy_route_forward,
  create_route_forward,
}
use flux_panel_plus.Create.Outcome.{settled_row, mark_failed-settles}

module _ (env : Env) (id : ℕ) (port_ids : ℕ → ℕ) (d : ForwardDto) (user_id : ℕ) (role_id : ℤ)
    (user_name : Text) (w : World) where
  abbrev pub RouteGranted : Route → List RouteHop → ℕ × List ForwardRoutePort → Type 0
  RouteGranted route hops ports =
      (is_admin role_id ≡ true)
      × (load_route_with_hops w.db d.route_id ≡ ok (route, hops))
      × (route.status ≡ pos 1)
      × (allocate_route_forward_ports w.db route hops d.in_port none ≡ ok ports)

  abbrev pub route_row : ℕ × List ForwardRoutePort → Forward
  route_row ports = new_route_forward env w.db id d user_id user_name ports.0 (last_port ports.1)

  abbrev pub RouteOutcome : Result {0} Unit × World → Type 0
  RouteOutcome (r, w') =
      ((is_ok r ≡ false) × (w'.db ≡ w.db))
      ⊎ ((route : Route) × (hops : List RouteHop) × (ports : ℕ × List ForwardRoutePort)
          × RouteGranted route hops ports
          × (w'.db
              ≡ create_route_rows (settled_row (is_ok r) (route_row ports))
                  (bind_ports env.now port_ids id route.id 0 ports.1) w.db))

  deploy_route_forward-settles :
      (f : Forward) (route : Route) (hops : List RouteHop) (bound : List ForwardRoutePort)
      → has_id (λ (r : Forward). r.id) f.id w.db.forwards ≡ false
      → let (r, w') =
          deploy_route_forward env f route hops bound
            (record w { db = create_route_rows f bound w.db }) in
        w'.db ≡ create_route_rows (settled_row (is_ok r) f) bound w.db
  unfolding deploy_route_forward
  deploy_route_forward-settles f route hops bound fresh =
      let name = build_service_name f.id f.user_id none in
      let start = record w { db = create_route_rows f bound w.db } in
      mark_failed-settles f (record (w.db) { route_ports = w.db.route_ports ++ bound })
        (create_route_gost_services env f route bound none name hops start) fresh
        (create_route_gost_services-KeepsDb env f route bound none name hops start)

  granted_forward-rows :
      (route : Route) (hops : List RouteHop) (ports : ℕ × List ForwardRoutePort)
      → has_id (λ (r : Forward). r.id) id w.db.forwards ≡ false
      → RouteGranted route hops ports
      → let (r, w') = create_route_forward env id port_ids d user_id role_id user_name w in
        w'.db
        ≡ create_route_rows
            (settled_row (is_ok r) (route_row ports))
            (bind_ports env.now port_ids id route.id 0 ports.1)
            w.db
  unfolding create_route_forward
  granted_forward-rows route hops ports fresh (admin, loaded, enabled, allocated) =
      rw (admin, loaded, (eq_ℤ_iff route.status (pos 1)).1 enabled, allocated)
        (deploy_route_forward-settles (route_row ports) route hops
          (bind_ports env.now port_ids id route.id 0 ports.1) fresh)

  -- With an id that no forward has: the creation of a forward on a route either fails and leaves the
  -- database as it was, or adds one forward and a row for each relay port, all that at once, and
  -- nothing else. Then the caller is an administrator, the route is enabled and has its hops, the
  -- ports are the allocated ones, and the forward is active if the creation succeeds and marked as
  -- failed if not.
  pub create_route_forward-Outcome :
      has_id (λ (r : Forward). r.id) id w.db.forwards ≡ false
      → RouteOutcome (create_route_forward env id port_ids d user_id role_id user_name w)
  unfolding create_route_forward
  create_route_forward-Outcome fresh = elim (Bool-cases (is_admin role_id)) [
    | inr n ↦ rw n (inl (refl, refl))
    | inl admin ↦ elim (Result-cases (load_route_with_hops w.db d.route_id)) [
      | inr (x, refused) ↦ rw (admin, refused) (inl (refl, refl))
      | inl ((route, hops), loaded) ↦ elim (Bool-cases (eq_ℤ route.status (pos 1))) [
        | inr off ↦ rw (admin, loaded, off) (inl (refl, refl))
        | inl on ↦
            elim (Result-cases (allocate_route_forward_ports w.db route hops d.in_port none)) [
              | inr (x, refused) ↦ rw (admin, loaded, on, refused) (inl (refl, refl))
              | inl (ports, allocated) ↦
                  let granted : RouteGranted route hops ports =
                    (admin, loaded, (eq_ℤ_iff route.status (pos 1)).0 on, allocated) in
                  inr (
                    route,
                    hops,
                    ports,
                    granted,
                    granted_forward-rows route hops ports fresh granted,
                  )
            ]
      ]
    ]
  ]
