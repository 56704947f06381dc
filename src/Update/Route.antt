-- ===== src/Update/Route.antt =====
-- go-backend/service/forward.go: updateRouteForward. The ids of the new rows of ports are arguments.
use flux_panel_plus.Prelude.{
  ℕ, ℤ, pos, eq_ℤ, not, Option, none, some, List, ◌++◌, ◌==◌, if◌then◌else◌,
}
use flux_panel_plus.Prelude.Table.{update_where, delete_where, by_id}
use flux_panel_plus.Model.{Forward, Route, RouteHop, ForwardRoutePort}
use flux_panel_plus.Model.Database.{Db}
use flux_panel_plus.Response.{refuse_if, route_admin_only, route_required, route_disabled}
use flux_panel_plus.Gost.Names.{build_service_name}
use flux_panel_plus.Gost.Commands.{Env}
use flux_panel_plus.Ports.Routes.{allocate_route_forward_ports}
use flux_panel_plus.Pause.Defs.{active}
use flux_panel_plus.Permissions.Defs.{is_admin}
use flux_panel_plus.Forwards.Steps.{load_route_with_hops}
use flux_panel_plus.Forwards.Routes.{cleanup_route_forward_services}
use flux_panel_plus.Create.Handler.{mark_failed}
use flux_panel_plus.Create.RouteServices.{create_route_gost_services}
use flux_panel_plus.Create.Route.{last_port, bind_ports}
use flux_panel_plus.Update.Handler.{ForwardUpdateDto}
use flux_panel_plus.Actions.{Action, ◌>>=◌, ◌>>◌, query, change}

abbrev pub updated_route_forward :
    ℤ → ForwardUpdateDto → Forward → ℕ → ℕ × List ForwardRoutePort → Forward
updated_route_forward now d f route_id ports = record f {
  name = d.name;
  tunnel_id = 0;
  route_id = route_id;
  remote_addr = d.remote_addr;
  strategy = d.strategy;
  listen_ip = d.listen_ip;
  interface_name = d.interface_name;
  in_port = ports.0;
  out_port = last_port ports.1;
  status = active;
  updated_time = now;
}

-- The columns of the transaction's update.
abbrev pub set_route_updated : Forward → Forward → Forward
set_route_updated u row = record row {
  name = u.name;
  tunnel_id = 0;
  route_id = u.route_id;
  remote_addr = u.remote_addr;
  strategy = u.strategy;
  listen_ip = u.listen_ip;
  interface_name = u.interface_name;
  in_port = u.in_port;
  out_port = u.out_port;
  status = u.status;
  updated_time = u.updated_time;
}

-- The transaction: the ports are replaced, and the row is changed.
abbrev pub replace_route_rows : Forward → List ForwardRoutePort → Db → Db
replace_route_rows u bound db = record db {
  forwards = update_where (by_id (λ f. f.id) u.id) (set_route_updated u) db.forwards;
  route_ports = delete_where (λ p. p.forward_id == u.id) db.route_ports ++ bound;
}

-- The route of the request, or the one that the forward is on.
abbrev pub requested_route : ForwardUpdateDto → Forward → ℕ
requested_route d f = if d.route_id == 0 then f.route_id else d.route_id

-- The port of the request, or the one that the forward has.
abbrev pub requested_port : Option ℕ → Forward → ℕ
requested_port none f = f.in_port
requested_port (some port) f = port

module _ (env : Env) where
  unfoldable pub redeploy_route_forward :
      Forward → Route → List RouteHop → List ForwardRoutePort → Action {0} Unit
  unfolding create_route_gost_services build_service_name mark_failed
  redeploy_route_forward u route hops bound w = mark_failed u (
      create_route_gost_services env u route bound none (build_service_name u.id u.user_id none)
        hops w)

  -- What follows the allocation of the ports.
  unfoldable pub replace_route_forward :
      (ℕ → ℕ)
      → ForwardUpdateDto
      → Forward
      → Route
      → List RouteHop
      → ℕ × List ForwardRoutePort
      → Action {0} Unit
  unfolding cleanup_route_forward_services redeploy_route_forward
  replace_route_forward port_ids d f route hops ports =
      let u = updated_route_forward env.now d f (requested_route d f) ports in
      let bound = bind_ports env.now port_ids f.id route.id 0 ports.1 in
      cleanup_route_forward_services env f
      >> (change (replace_route_rows u bound) >> redeploy_route_forward u route hops bound)

  unfoldable pub update_route_forward : (ℕ → ℕ) → ForwardUpdateDto → Forward → ℤ → Action {0} Unit
  unfolding load_route_with_hops allocate_route_forward_ports replace_route_forward
  update_route_forward port_ids d f role_id = do
    query (λ db. refuse_if (not (is_admin role_id)) route_admin_only)
    query (λ db. refuse_if (requested_route d f == 0) route_required)
    (route, hops) ← query (λ db. load_route_with_hops db (requested_route d f))
    query (λ db. refuse_if (not (eq_ℤ route.status (pos 1))) route_disabled)
    ports ← query (λ db.
        allocate_route_forward_ports db route hops (some (requested_port d.in_port f)) (some f.id))
    replace_route_forward port_ids d f route hops ports
