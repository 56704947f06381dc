-- ===== src/Ports/Defs.antt =====
-- go-backend/service/forward.go: getAllUsedPortsOnNode, allocatePortForNode, isInPortAvailable,
-- allocatePorts, and their counterparts for routes.
use flux_panel_plus.Prelude.{
  ℕ, ℤ, pos, eq_ℤ, zero, suc, ◌-◌, Bool, false, not, ◌&&◌, ◌||◌, Option, none, some, List, [], ◌∷◌,
  ◌++◌, map, ltb, ◌==◌, if◌then◌else◌,
}
use flux_panel_plus.Prelude.Table.{first_where, find_where, by_id}
use flux_panel_plus.Model.{Tunnel, Forward, Node, RouteHop, ForwardRoutePort}
use flux_panel_plus.Model.Database.{Db}
use flux_panel_plus.Response.{
  Result, ok, err, in_port_unavailable, in_ports_exhausted, out_ports_exhausted, or_error,
}

-- `GetNodeById`
unfoldable pub get_node_by_id : Db → ℕ → Option Node
get_node_by_id db id = first_where (by_id (λ n. n.id) id) db.nodes

abbrev pub mem : ℕ → List ℕ → Bool
mem k [] = false
mem k (j ∷ js) = (j == k) || mem k js

-- `excludeForwardId != nil` and the id is the excluded one.
abbrev pub is_excluded : Option ℕ → ℕ → Bool
is_excluded none id = false
is_excluded (some e) id = id == e

-- The values that are not 0 of a column, in the rows that satisfy a condition.
abbrev pub collect {ℓ} : {A : Type ℓ} → (A → Bool) → (A → ℕ) → List A → List ℕ
collect p port [] = []
collect p port (r ∷ rs) =
    if p r && not (port r == 0) then port r ∷ collect p port rs else collect p port rs

abbrev pub in_tunnel_ids : Db → ℕ → List ℕ
in_tunnel_ids db node_id =
    map (λ (t : Tunnel). t.id) (find_where (λ (t : Tunnel). t.in_node_id == node_id) db.tunnels)

abbrev pub out_tunnel_ids : Db → ℕ → List ℕ
out_tunnel_ids db node_id =
    map (λ (t : Tunnel). t.id) (find_where (λ (t : Tunnel). t.out_node_id == node_id) db.tunnels)

-- The routes whose first hop is on the node.
abbrev pub entry_route_ids : Db → ℕ → List ℕ
entry_route_ids db node_id =
    map (λ (h : RouteHop). h.route_id)
      (find_where (λ (h : RouteHop). (h.hop_order == 0) && (h.node_id == node_id)) db.route_hops)

unfoldable pub get_all_used_ports_on_node : Db → ℕ → Option ℕ → List ℕ
get_all_used_ports_on_node db node_id exclude =
    collect (λ f. mem f.tunnel_id (in_tunnel_ids db node_id) && not (is_excluded exclude f.id))
      (λ (f : Forward). f.in_port) db.forwards
    ++ (collect (λ f. mem f.tunnel_id (out_tunnel_ids db node_id) && not (is_excluded exclude f.id))
          (λ (f : Forward). f.out_port) db.forwards
        ++ (collect
              (λ f. mem f.route_id (entry_route_ids db node_id) && not (is_excluded exclude f.id))
              (λ (f : Forward). f.in_port) db.forwards
            ++ collect (λ p. (p.node_id == node_id) && not (is_excluded exclude p.forward_id))
                (λ (p : ForwardRoutePort). p.relay_port) db.route_ports))

-- `for port := node.PortSta; port <= node.PortEnd; port++`, with the number of rounds left.
unfoldable pub first_free : (ℕ → Bool) → ℕ → ℕ → Option ℕ
first_free used zero port = none
first_free used (suc rounds) port =
    let rest = first_free used rounds (suc port) in if used port then rest else some port

abbrev pub rounds : Node → ℕ
rounds node = suc node.port_end - node.port_sta

unfoldable pub allocate_port_for_node : Db → ℕ → Option ℕ → Option ℕ
unfolding get_node_by_id get_all_used_ports_on_node first_free
allocate_port_for_node db node_id exclude = elim (get_node_by_id db node_id) [
  | none ↦ none
  | some node ↦
      let used = get_all_used_ports_on_node db node_id exclude in
      first_free (λ port. mem port used) (rounds node) node.port_sta
]

abbrev pub outside : Node → ℕ → Bool
outside node port = ltb port node.port_sta || ltb node.port_end port

unfoldable pub is_in_port_available : Db → Tunnel → ℕ → Option ℕ → Bool
unfolding get_node_by_id get_all_used_ports_on_node
is_in_port_available db tunnel port exclude = elim (get_node_by_id db tunnel.in_node_id) [
  | none ↦ false
  | some node ↦
      if outside node port
      then false
      else not (mem port (get_all_used_ports_on_node db tunnel.in_node_id exclude))
]

unfoldable pub allocate_in_port : Db → Tunnel → Option ℕ → Option ℕ → Result ℕ
unfolding is_in_port_available allocate_port_for_node
allocate_in_port db tunnel none exclude =
    or_error (allocate_port_for_node db tunnel.in_node_id exclude) in_ports_exhausted
allocate_in_port db tunnel (some port) exclude =
    if is_in_port_available db tunnel port exclude then ok port else err (in_port_unavailable port)

abbrev pub tunnel_forward : ℤ
tunnel_forward = pos 2

unfoldable pub allocate_out_port : Db → Tunnel → Option ℕ → Result ℕ
unfolding allocate_port_for_node
allocate_out_port db tunnel exclude =
    if eq_ℤ tunnel.type tunnel_forward
    then or_error (allocate_port_for_node db tunnel.out_node_id exclude) out_ports_exhausted
    else ok 0

-- The entry port is chosen first; the exit port is 0 unless the tunnel forwards to another node.
unfoldable pub allocate_ports : Db → Tunnel → Option ℕ → Option ℕ → Result (ℕ × ℕ)
unfolding allocate_in_port allocate_out_port
allocate_ports db tunnel specified exclude = elim (allocate_in_port db tunnel specified exclude) [
  | err e ↦ err e
  | ok in_port ↦ elim (allocate_out_port db tunnel exclude) [
    | err e ↦ err e
    | ok out_port ↦ ok (in_port, out_port)
  ]
]
