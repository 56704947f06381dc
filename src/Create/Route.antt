-- ===== src/Create/Route.antt =====
-- go-backend/service/forward.go: createRouteForward. The ids that the database gives the new rows are
-- arguments.
use flux_panel_plus.Prelude.{ℕ, suc, ℤ, pos, eq_ℤ, add64, not, none, List, [], ◌∷◌, ◌++◌}
use flux_panel_plus.Prelude.Text.{Text}
use flux_panel_plus.Model.{Forward, Route, RouteHop, ForwardRoutePort}
use flux_panel_plus.Model.Database.{Db}
use flux_panel_plus.Response.{ok, refuse_if, route_admin_only, route_disabled}
use flux_panel_plus.Gost.Names.{build_service_name}
use flux_panel_plus.Gost.Commands.{Env}
use flux_panel_plus.Ports.Routes.{allocate_route_forward_ports}
use flux_panel_plus.Pause.Defs.{active}
use flux_panel_plus.Permissions.Defs.{is_admin}
use flux_panel_plus.Forwards.Steps.{load_route_with_hops}
use flux_panel_plus.Create.RouteServices.{create_route_gost_services}
use flux_panel_plus.Create.Handler.{ForwardDto, max_inx, mark_failed}
use flux_panel_plus.Actions.{Action, ◌>>=◌, ◌>>◌, query, change}

-- `ports[len(ports)-1].RelayPort`; the ports of a route are never none.
abbrev pub last_port : List ForwardRoutePort → ℕ
last_port [] = 0
last_port (p ∷ []) = p.relay_port
last_port (p ∷ q ∷ ps) = last_port (q ∷ ps)

abbrev pub new_route_forward : Env → Db → ℕ → ForwardDto → ℕ → Text → ℕ → ℕ → Forward
new_route_forward env db id d user_id user_name in_port out_port = record {
  id = id;
  user_id = user_id;
  user_name = user_name;
  name = d.name;
  tunnel_id = 0;
  route_id = d.route_id;
  in_port = in_port;
  out_port = out_port;
  remote_addr = d.remote_addr;
  strategy = d.strategy;
  listen_ip = d.listen_ip;
  interface_name = d.interface_name;
  in_flow = pos 0;
  out_flow = pos 0;
  created_time = env.now;
  updated_time = env.now;
  status = active;
  inx = add64 (max_inx db.forwards) (pos 1);
}

-- The row of a port, when it is stored.
abbrev pub bound_port : ℤ → ℕ → ℕ → ℕ → ForwardRoutePort → ForwardRoutePort
bound_port now id forward_id route_id p = record p {
  id = id;
  forward_id = forward_id;
  route_id = route_id;
  created_time = now;
  updated_time = now;
}

-- `for i := range ports`, from the index i on.
abbrev pub bind_ports : ℤ → (ℕ → ℕ) → ℕ → ℕ → ℕ → List ForwardRoutePort → List ForwardRoutePort
bind_ports now ids forward_id route_id i [] = []
bind_ports now ids forward_id route_id i (p ∷ ps) =
    bound_port now (ids i) forward_id route_id p ∷ bind_ports now ids forward_id route_id (suc i) ps

-- The transaction: the row and its ports.
abbrev pub create_route_rows : Forward → List ForwardRoutePort → Db → Db
create_route_rows f ports db = record db {
  forwards = db.forwards ++ f ∷ [];
  route_ports = db.route_ports ++ ports;
}

module _ (env : Env) where
  unfoldable pub deploy_route_forward :
      Forward → Route → List RouteHop → List ForwardRoutePort → Action {0} Unit
  unfolding create_route_gost_services build_service_name mark_failed
  deploy_route_forward f route hops ports = λ w. mark_failed f (
      create_route_gost_services env f route ports none (build_service_name f.id f.user_id none)
        hops w)

  unfoldable pub create_route_forward : ℕ → (ℕ → ℕ) → ForwardDto → ℕ → ℤ → Text → Action {0} Unit
  unfolding load_route_with_hops allocate_route_forward_ports deploy_route_forward
  create_route_forward id port_ids d user_id role_id user_name = do
    query (λ db. refuse_if (not (is_admin role_id)) route_admin_only)
    (route, hops) ← query (λ db. load_route_with_hops db d.route_id)
    query (λ db. refuse_if (not (eq_ℤ route.status (pos 1))) route_disabled)
    (in_port, ports) ← query (λ db. allocate_route_forward_ports db route hops d.in_port none)
    f ← query (λ db. ok (new_route_forward env db id d user_id user_name in_port (last_port ports)))
    let bound = bind_ports env.now port_ids id route.id 0 ports
    change (create_route_rows f bound)
    deploy_route_forward f route hops bound
