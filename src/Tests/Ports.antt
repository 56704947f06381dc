-- ===== src/Tests/Ports.antt =====
-- Allocation on the small panel.
use flux_panel_plus.Prelude.{
  ℕ, ◌+◌, pos, ◌≤◌, ◌≡◌, ◌≢◌, refl, inl, true, none, [], ◌∷◌, arith, leb, All, map,
}
use flux_panel_plus.Model.{Route, RouteHop, ForwardRoutePort, Forward}
use flux_panel_plus.Response.{ok}
use flux_panel_plus.Ports.Defs.{
  mem, get_node_by_id, get_all_used_ports_on_node, allocate_port_for_node, allocate_ports,
}
use flux_panel_plus.Ports.FirstFit.{allocate_port_first_fit, allocate_port_complete}
use flux_panel_plus.Ports.Claims.{claims, used_iff_claimed}
use flux_panel_plus.Ports.Exclusive.{create_forward_row, create_keeps_exclusive}
use flux_panel_plus.Ports.Routes.{allocate_route_forward_ports}
use flux_panel_plus.Ports.RouteDistinct.{AllDistinct, IsFree, listeners, route_ports_distinct}
use flux_panel_plus.Tests.Rows.{tunnel, forward, node, sample}

used_ports : get_all_used_ports_on_node sample 5 none ≡ 1000 ∷ []
unfolding get_all_used_ports_on_node
used_ports = refl

next_ports : allocate_ports sample tunnel none none ≡ ok (1001, 2001)
unfolding allocate_ports
next_ports = refl

abbrev second : Forward
second = record forward { id = 2; in_port = 1001; out_port = 2001 }

allocate_port_first_fit_example : mem 1000 (get_all_used_ports_on_node sample 5 none) ≡ true
unfolding get_node_by_id allocate_port_for_node
allocate_port_first_fit_example =
    allocate_port_first_fit sample 5 none (node 5 1000 1002) 1000 {port = 1001} refl refl
      (omega arith) (omega arith)

allocate_port_complete_example : allocate_port_for_node sample 5 none ≢ none
unfolding get_node_by_id get_all_used_ports_on_node
allocate_port_complete_example =
    allocate_port_complete sample 5 none (node 5 1000 1002) 1002 refl (omega arith) (omega arith)
      refl

used_iff_claimed_example :
    mem 1000 (get_all_used_ports_on_node sample 5 none) ≡ leb 1 (claims sample 5 1000)
used_iff_claimed_example = used_iff_claimed sample 5 1000 (refl, tt) (omega arith)

create_keeps_exclusive_example : claims (create_forward_row sample second) 5 1001 ≤ 1
unfolding claims allocate_ports
create_keeps_exclusive_example =
    create_keeps_exclusive sample tunnel second none 5 1001 (refl, tt) refl (inl (ground arith))
      refl refl (omega arith) (omega arith)

abbrev pub route : Route
route = record {
  id = 4;
  name = [];
  protocol = [];
  tcp_listen_addr = [];
  udp_listen_addr = [];
  interface_name = [];
  created_time = pos 0;
  updated_time = pos 0;
  status = pos 1;
  inx = pos 0;
}

abbrev pub hop : ℕ → ℕ → RouteHop
hop order node_id = record {
  id = order + 1;
  route_id = 4;
  hop_order = order;
  node_id = node_id;
  node_ip = [];
  created_time = pos 0;
  updated_time = pos 0;
}

abbrev pub relay : ForwardRoutePort
relay = record {
  id = 0;
  forward_id = 0;
  route_id = 4;
  hop_order = 1;
  node_id = 6;
  relay_port = 2001;
  created_time = pos 0;
  updated_time = pos 0;
}

route_ports_distinct_example :
    AllDistinct ((5, 1001) ∷ listeners (relay ∷ []))
    × All (IsFree sample none) ((5, 1001) ∷ listeners (relay ∷ []))
    × (map (λ (p : ForwardRoutePort). p.node_id) (relay ∷ []) ≡ 6 ∷ [])
unfolding allocate_route_forward_ports
route_ports_distinct_example =
    route_ports_distinct sample route (hop 0 5) (hop 1 6) [] none none 1001 (relay ∷ []) refl
