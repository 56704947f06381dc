-- ===== src/Gost/RouteCommands.antt =====
-- go-backend/pkg/gost.go, the commands for the services of a route, and routeChainName and
-- routeRelayServiceName of go-backend/service/forward.go.
use flux_panel_plus.Prelude.{ℕ, Option, List, [], ◌∷◌, ◌++◌}
use flux_panel_plus.Prelude.Text.{Text, codes, decimal}
use flux_panel_plus.Gost.Names.{tcp_name, udp_name}
use flux_panel_plus.Gost.Commands.{
  World, Env, send_msg, add_service, delete_service, pause_service, resume_service, add_chains,
  update_chains, delete_chains,
}
use flux_panel_plus.Gost.RouteServices.{
  build_route_entry_services, build_route_relay_service, build_exact_chain_data,
}

-- `fmt.Sprintf("%s_route_%d_chains", serviceName, segmentOrder)`
abbrev pub route_chain_name : Text → ℕ → Text
route_chain_name name segment = name ++ (codes "_route_" ++ (decimal segment ++ codes "_chains"))

-- `fmt.Sprintf("%s_route_%d_tls", serviceName, hopOrder)`
abbrev pub route_relay_service_name : Text → ℕ → Text
route_relay_service_name name hop_order =
    name ++ (codes "_route_" ++ (decimal hop_order ++ codes "_tls"))

-- The services of a route's first hop.
abbrev pub entry_service_names : Text → List Text
entry_service_names name = tcp_name name ∷ udp_name name ∷ []

module _ (env : Env) (node_id : ℕ) where
  unfoldable pub delete_route_chain : Text → World → Text × World
  unfolding send_msg
  delete_route_chain chain = send_msg env node_id (delete_chains chain)

  unfoldable pub delete_route_services : List Text → World → Text × World
  unfolding send_msg
  delete_route_services services = send_msg env node_id (delete_service services)

  unfoldable pub pause_route_services : List Text → World → Text × World
  unfolding send_msg
  pause_route_services services = send_msg env node_id (pause_service services)

  unfoldable pub resume_route_services : List Text → World → Text × World
  unfolding send_msg
  resume_route_services services = send_msg env node_id (resume_service services)

  unfoldable pub add_route_chain : Text → Text → Text → Text → World → Text × World
  unfolding send_msg
  add_route_chain chain remote_addr protocol interface_name =
      send_msg env node_id
        (add_chains (build_exact_chain_data chain remote_addr protocol interface_name))

  unfoldable pub update_route_chain : Text → Text → Text → Text → World → Text × World
  unfolding send_msg
  update_route_chain chain remote_addr protocol interface_name =
      send_msg env node_id
        (update_chains chain (build_exact_chain_data chain remote_addr protocol interface_name))

  unfoldable pub add_route_entry_service :
      Text → ℕ → Option ℕ → Text → Text → Text → World → Text × World
  unfolding send_msg
  add_route_entry_service name in_port limiter listen_addr chain interface_name =
      send_msg env node_id (
        add_service
          (build_route_entry_services name in_port limiter listen_addr chain interface_name))

  unfoldable pub add_route_relay_service : Text → ℕ → Text → Text → Text → World → Text × World
  unfolding send_msg
  add_route_relay_service name relay_port chain protocol interface_name = send_msg env node_id (
      add_service
        (build_route_relay_service name relay_port chain protocol interface_name [] [] ∷ []))

  unfoldable pub add_route_terminal_service :
      Text → ℕ → Text → Text → Text → Text → World → Text × World
  unfolding send_msg
  add_route_terminal_service name relay_port remote_addr protocol strategy interface_name =
      send_msg env node_id (
        add_service (
          build_route_relay_service name relay_port [] protocol interface_name remote_addr strategy
          ∷ []))
