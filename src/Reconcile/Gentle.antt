-- ===== src/Reconcile/Gentle.antt =====
-- go-backend/service/reconcile.go: gentleSyncGostServices, gentleSyncRouteGostServicesOnNode,
-- addOrUpdateRouteChain and setRouteForwardServicesPausedOnNode. What runs on a node is not restarted.
use flux_panel_plus.Prelude.{
  ℕ, suc, eq_ℤ, Bool, not, ◌||◌, Option, none, some, List, [], ◌∷◌, ◌++◌, ◌==◌, length, leb,
  if◌then◌else◌,
}
use flux_panel_plus.Prelude.Text.{Text, codes, contains}
use flux_panel_plus.Model.{Tunnel, Forward, Node, Route, RouteHop, ForwardRoutePort}
use flux_panel_plus.Response.{err, ok, gost, invalid_route_deployment}
use flux_panel_plus.Gost.Names.{format_listen_addr}
use flux_panel_plus.Gost.Commands.{
  World, Env, is_gost_success, update_forwarder_command, update_remote_forwarder,
}
use flux_panel_plus.Gost.RouteCommands.{
  route_chain_name, route_relay_service_name, entry_service_names, update_route_chain,
}
use flux_panel_plus.Ports.Defs.{tunnel_forward}
use flux_panel_plus.Forwards.Routes.{send_route_services}
use flux_panel_plus.Create.Services.{chain_command, remote_command, main_command}
use flux_panel_plus.Create.RouteServices.{
  route_port_by_hop, terminal_command, segment_command, relay_command, entry_command,
}
use flux_panel_plus.Update.Handler.{port_forward}
use flux_panel_plus.Actions.{Action, ◌>>◌, return, fail, expect_ok}

-- `isGostAlreadyExists`
abbrev pub already_exists : Text → Bool
already_exists msg = contains msg (codes "already exists")

-- A command, and what follows where the object is there already.
abbrev pub add_or : (World → Text × World) → Action {0} Unit → Action {0} Unit
add_or add there w =
    let (msg, w') = add w in
    if is_gost_success msg
    then (ok tt, w')
    else if already_exists msg
    then there w'
    else (err (gost msg), w')

module _ (env : Env) (f : Forward) (tunnel : Tunnel) (limiter : Option ℕ) (name : Text) where
  unfoldable pub gentle_remote : Option Node → Action {0} Unit
  unfolding remote_command update_remote_forwarder
  gentle_remote none = return tt
  gentle_remote (some out) =
      add_or (remote_command env f tunnel limiter name out)
        (expect_ok (update_remote_forwarder env out.id name f.remote_addr f.strategy))

  -- The main service of a tunnel between nodes cannot be changed in place, and is left.
  unfoldable pub gentle_main : Node → Action {0} Unit
  unfolding main_command update_forwarder_command
  gentle_main in_node = add_or (main_command env f tunnel limiter name in_node) (
      if eq_ℤ tunnel.type port_forward
      then expect_ok (update_forwarder_command env in_node.id name f.remote_addr f.strategy)
      else return tt)

  unfoldable pub gentle_sync_gost_services : Node → Option Node → Action {0} Unit
  unfolding chain_command gentle_remote gentle_main
  gentle_sync_gost_services in_node out_node =
      (if eq_ℤ tunnel.type tunnel_forward
        then add_or (chain_command env f tunnel limiter name in_node) (return tt)
          >> gentle_remote out_node
        else return tt)
      >> gentle_main in_node

module _ (env : Env) (node_id : ℕ) (f : Forward) (route : Route) (ports : List ForwardRoutePort)
    (limiter : Option ℕ) (name : Text) where
  -- The chain of the hop of an index to the next one.
  unfoldable pub add_or_update_route_chain : ℕ → RouteHop → RouteHop → Action {0} Unit
  unfolding segment_command update_route_chain route_port_by_hop format_listen_addr
  add_or_update_route_chain i hop next =
      add_or (segment_command env f route ports limiter name i hop next) (
        expect_ok (
          update_route_chain env node_id (route_chain_name name i)
            (format_listen_addr next.node_ip (route_port_by_hop ports next.hop_order))
            route.protocol route.interface_name))

  unfoldable pub gentle_hop : ℕ → RouteHop → Action {0} Unit
  unfolding entry_command relay_command
  gentle_hop i hop =
      if i == 0
      then add_or (entry_command env f route ports limiter name hop) (return tt)
      else add_or (relay_command env f route ports limiter name i hop) (return tt)

  -- What the first hop on the node is sent, from the index i on.
  unfoldable pub gentle_from : ℕ → List RouteHop → Action {0} Unit
  unfolding terminal_command add_or_update_route_chain gentle_hop
  gentle_from i [] = return tt
  gentle_from i (hop ∷ []) =
      if hop.node_id == node_id
      then add_or (terminal_command env f route ports limiter name hop) (return tt)
      else return tt
  gentle_from i (hop ∷ next ∷ hops) =
      let rest = gentle_from (suc i) (next ∷ hops) in
      if hop.node_id == node_id
      then add_or_update_route_chain i hop next >> gentle_hop i hop
      else rest

  unfoldable pub gentle_sync_route_on_node : List RouteHop → Action {0} Unit
  unfolding gentle_from
  gentle_sync_route_on_node hops =
      if not (leb 2 (length hops)) || not (suc (length ports) == length hops)
      then fail invalid_route_deployment
      else gentle_from 0 hops

module _ (env : Env) (node_id : ℕ) (name : Text) where
  abbrev pub entry_here : List RouteHop → List Text
  entry_here [] = []
  entry_here (hop ∷ hops) = if hop.node_id == node_id then entry_service_names name else []

  abbrev pub relays_here : List ForwardRoutePort → List Text
  relays_here [] = []
  relays_here (p ∷ ps) =
      if p.node_id == node_id
      then route_relay_service_name name p.hop_order ∷ relays_here ps
      else relays_here ps

  abbrev pub send_some : Bool → List Text → Action {0} Unit
  unfolding send_route_services
  send_some pausing [] = return tt
  send_some pausing (s ∷ services) =
      expect_ok (send_route_services env pausing node_id (s ∷ services))

  unfoldable pub set_route_paused_on_node :
      List RouteHop → List ForwardRoutePort → Bool → Action {0} Unit
  unfolding send_some
  set_route_paused_on_node hops ports pausing =
      send_some pausing (entry_here hops ++ relays_here ports)
