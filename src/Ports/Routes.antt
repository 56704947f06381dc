-- ===== src/Ports/Routes.antt =====
-- go-backend/service/forward.go: allocateRouteForwardPorts and its helpers. The map `reserved` of
-- ports chosen in this call is the list of its (node, port) pairs.
use flux_panel_plus.Prelude.{
  ℕ, pos, Bool, false, not, ◌&&◌, ◌||◌, Option, none, some, List, [], ◌∷◌, ◌==◌, if◌then◌else◌,
}
use flux_panel_plus.Model.{Route, RouteHop, ForwardRoutePort}
use flux_panel_plus.Model.Database.{Db}
use flux_panel_plus.Response.{
  Result, ok, err, route_needs_two_nodes, route_entry_port_unavailable, route_entry_exhausted,
  route_ports_exhausted,
}
use flux_panel_plus.Ports.Defs.{
  mem, get_node_by_id, get_all_used_ports_on_node, first_free, rounds, outside,
}

abbrev pub Reserved : Type 0
Reserved = List (ℕ × ℕ)

abbrev pub is_reserved : ℕ → ℕ → Reserved → Bool
is_reserved node_id port [] = false
is_reserved node_id port ((n, p) ∷ rest) =
    ((n == node_id) && (p == port)) || is_reserved node_id port rest

unfoldable pub is_route_port_available : Db → ℕ → ℕ → Option ℕ → Reserved → Bool
unfolding get_node_by_id get_all_used_ports_on_node
is_route_port_available db node_id port exclude reserved = elim (get_node_by_id db node_id) [
  | none ↦ false
  | some node ↦
      if outside node port
      then false
      else if is_reserved node_id port reserved
      then false
      else not (mem port (get_all_used_ports_on_node db node_id exclude))
]

unfoldable pub allocate_route_port_for_node : Db → ℕ → Option ℕ → Reserved → Option ℕ
unfolding is_route_port_available first_free
allocate_route_port_for_node db node_id exclude reserved = elim (get_node_by_id db node_id) [
  | none ↦ none
  | some node ↦
      first_free (λ port. not (is_route_port_available db node_id port exclude reserved))
        (rounds node) node.port_sta
]

abbrev pub relay_row : Route → RouteHop → ℕ → ForwardRoutePort
relay_row route hop port = record {
  id = 0;
  forward_id = 0;
  route_id = route.id;
  hop_order = hop.hop_order;
  node_id = hop.node_id;
  relay_port = port;
  created_time = pos 0;
  updated_time = pos 0;
}

abbrev cons_result :
    ForwardRoutePort → Result (List ForwardRoutePort) → Result (List ForwardRoutePort)
cons_result p (ok ps) = ok (p ∷ ps)
cons_result p (err e) = err e

-- `for i := 1; i < len(hops); i++`
unfoldable pub allocate_relay_ports :
    Db → Route → Option ℕ → Reserved → List RouteHop → Result (List ForwardRoutePort)
unfolding allocate_route_port_for_node
allocate_relay_ports db route exclude reserved [] = ok []
allocate_relay_ports db route exclude reserved (hop ∷ hops) =
    elim (allocate_route_port_for_node db hop.node_id exclude reserved) [
      | none ↦ err (route_ports_exhausted hop.node_id)
      | some port ↦
          cons_result (relay_row route hop port)
            (allocate_relay_ports db route exclude ((hop.node_id, port) ∷ reserved) hops)
    ]

unfoldable pub allocate_entry_port : Db → ℕ → Option ℕ → Option ℕ → Result ℕ
unfolding is_route_port_available allocate_route_port_for_node
allocate_entry_port db node_id (some port) exclude =
    if is_route_port_available db node_id port exclude []
    then ok port
    else err (route_entry_port_unavailable port)
allocate_entry_port db node_id none exclude =
    elim (allocate_route_port_for_node db node_id exclude []) [
      | none ↦ err route_entry_exhausted
      | some port ↦ ok port
    ]

unfoldable pub allocate_route_forward_ports :
    Db → Route → List RouteHop → Option ℕ → Option ℕ → Result (ℕ × List ForwardRoutePort)
unfolding allocate_entry_port allocate_relay_ports
allocate_route_forward_ports db route [] specified exclude = err route_needs_two_nodes
allocate_route_forward_ports db route (entry ∷ []) specified exclude = err route_needs_two_nodes
allocate_route_forward_ports db route (entry ∷ hop ∷ hops) specified exclude =
    elim (allocate_entry_port db entry.node_id specified exclude) [
      | err e ↦ err e
      | ok in_port ↦
          elim (allocate_relay_ports db route exclude ((entry.node_id, in_port) ∷ [])
            (hop ∷ hops)) [ err e ↦ err e | ok ports ↦ ok (in_port, ports) ]
    ]
