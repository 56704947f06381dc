-- ===== src/Create/RouteServices.antt =====
-- go-backend/service/forward.go: routePortByHop and createRouteGostServices. The services are created
-- from the last hop back to the first; where one fails, what is there is cleaned up, but for the
-- first.
use flux_panel_plus.Prelude.{ℕ, suc, Option, none, some, List, [], ◌∷◌, ◌==◌, length, if◌then◌else◌}
use flux_panel_plus.Prelude.Text.{Text, is_empty}
use flux_panel_plus.Model.{Forward, Route, RouteHop, ForwardRoutePort}
use flux_panel_plus.Response.{invalid_route_deployment}
use flux_panel_plus.Gost.Names.{format_listen_addr}
use flux_panel_plus.Gost.Commands.{World, Env}
use flux_panel_plus.Gost.RouteCommands.{
  route_chain_name, route_relay_service_name, add_route_chain, add_route_entry_service,
  add_route_relay_service, add_route_terminal_service,
}
use flux_panel_plus.Forwards.Routes.{cleanup_route_forward_services}
use flux_panel_plus.Actions.{Action, ◌>>◌, return, fail, expect_ok}
use flux_panel_plus.Create.Services.{expect_or_undo}

-- The map from hops to ports: a later row replaces an earlier one, and a hop without one reads 0.
abbrev pub port_by_hop? : ℕ → List ForwardRoutePort → Option ℕ
port_by_hop? k [] = none
port_by_hop? k (p ∷ ps) = elim (port_by_hop? k ps) [
  | some port ↦ some port
  | none ↦ if p.hop_order == k then some p.relay_port else none
]

abbrev or_zero : Option ℕ → ℕ
or_zero none = 0
or_zero (some n) = n

unfoldable pub route_port_by_hop : List ForwardRoutePort → ℕ → ℕ
route_port_by_hop ports k = or_zero (port_by_hop? k ports)

-- `hops[len(hops)-1]`
abbrev pub last_hop : RouteHop → List RouteHop → RouteHop
last_hop hop [] = hop
last_hop hop (next ∷ hops) = last_hop next hops

module _ (env : Env) (f : Forward) (route : Route) (ports : List ForwardRoutePort)
    (limiter : Option ℕ) (name : Text) where
  unfoldable pub undo_route : World → World
  unfolding cleanup_route_forward_services
  undo_route w = (cleanup_route_forward_services env f w).1

  unfoldable pub terminal_command : RouteHop → World → Text × World
  unfolding add_route_terminal_service route_port_by_hop
  terminal_command hop =
      add_route_terminal_service env hop.node_id (route_relay_service_name name hop.hop_order)
        (route_port_by_hop ports hop.hop_order) f.remote_addr route.protocol f.strategy
        f.interface_name

  -- The chain of a hop, named by its index, leads to the port of the next hop.
  unfoldable pub segment_command : ℕ → RouteHop → RouteHop → World → Text × World
  unfolding add_route_chain route_port_by_hop format_listen_addr
  segment_command i source next =
      add_route_chain env source.node_id (route_chain_name name i)
        (format_listen_addr next.node_ip (route_port_by_hop ports next.hop_order)) route.protocol
        route.interface_name

  unfoldable pub relay_command : ℕ → RouteHop → World → Text × World
  unfolding add_route_relay_service route_port_by_hop
  relay_command i source =
      add_route_relay_service env source.node_id (route_relay_service_name name source.hop_order)
        (route_port_by_hop ports source.hop_order) (route_chain_name name i) route.protocol
        route.interface_name

  abbrev pub listen_address : Text
  listen_address = if is_empty f.listen_ip then route.tcp_listen_addr else f.listen_ip

  unfoldable pub entry_command : RouteHop → World → Text × World
  unfolding add_route_entry_service
  entry_command entry =
      add_route_entry_service env entry.node_id name f.in_port limiter listen_address
        (route_chain_name name 0) route.interface_name

  -- `for i := len(hops) - 2; i >= 1; i--`, for the hops from the index i on.
  unfoldable pub deploy_relays : ℕ → List RouteHop → Action {0} Unit
  unfolding segment_command relay_command undo_route
  deploy_relays i [] = return tt
  deploy_relays i (last ∷ []) = return tt
  deploy_relays i (source ∷ next ∷ hops) =
      deploy_relays (suc i) (next ∷ hops)
      >> (expect_or_undo (segment_command i source next) undo_route
          >> expect_or_undo (relay_command i source) undo_route)

  unfoldable pub deploy_route : RouteHop → RouteHop → List RouteHop → Action {0} Unit
  unfolding terminal_command deploy_relays segment_command undo_route entry_command
  deploy_route entry hop hops =
      expect_ok (terminal_command (last_hop hop hops))
      >> (deploy_relays 1 (hop ∷ hops)
          >> (expect_or_undo (segment_command 0 entry hop) undo_route
              >> expect_or_undo (entry_command entry) undo_route))

  unfoldable pub create_route_gost_services : List RouteHop → Action {0} Unit
  unfolding deploy_route
  create_route_gost_services [] = fail invalid_route_deployment
  create_route_gost_services (entry ∷ []) = fail invalid_route_deployment
  create_route_gost_services (entry ∷ hop ∷ hops) =
      if length ports == length (hop ∷ hops)
      then deploy_route entry hop hops
      else fail invalid_route_deployment
