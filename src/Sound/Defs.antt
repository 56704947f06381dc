-- ===== src/Sound/Defs.antt =====
-- References between tables: from forwards to tunnels and routes, from tunnels to nodes, and from hops
-- to routes. A hop's node may be missing (DeleteNode leaves hops), and a relay port's forward
-- (DeleteUser leaves ports): these two are left out.
use flux_panel_plus.Prelude.{
  ℕ, ◌≡◌, true, Bool, not, ◌&&◌, List, All, length, leb, ◌==◌, eq_ℤ, if◌then◌else◌,
}
use flux_panel_plus.Prelude.Table.{find_where, has_id, Distinct}
use flux_panel_plus.Model.{Tunnel, Forward, Node, Route, RouteHop, ForwardRoutePort}
use flux_panel_plus.Model.Database.{Db}
use flux_panel_plus.Ports.Defs.{tunnel_forward}
use flux_panel_plus.Topology.Routes.{on_route}
use flux_panel_plus.Update.Relates.{Preorder}

abbrev pub has_node : Db → ℕ → Bool
has_node db id = has_id (λ (n : Node). n.id) id db.nodes

abbrev pub has_tunnel : Db → ℕ → Bool
has_tunnel db id = has_id (λ (t : Tunnel). t.id) id db.tunnels

abbrev pub has_route : Db → ℕ → Bool
has_route db id = has_id (λ (r : Route). r.id) id db.routes

abbrev pub has_nodes : Db → Tunnel → Bool
has_nodes db t = has_node db t.in_node_id && has_node db t.out_node_id

-- A tunnel between nodes has two.
abbrev pub has_exit : Tunnel → Bool
has_exit t = not (eq_ℤ t.type tunnel_forward && (t.out_node_id == t.in_node_id))

-- A forward is on a route, or else on a tunnel.
abbrev pub has_target : Db → Forward → Bool
has_target db f = if f.route_id == 0 then has_tunnel db f.tunnel_id else has_route db f.route_id

-- Two nodes or more, no node twice.
abbrev pub IsPath : List RouteHop → Type 0
IsPath hops = (leb 2 (length hops) ≡ true) × Distinct (λ h. h.node_id) hops

-- Each tunnel has its nodes, two where it is between nodes, each forward its tunnel or route, each hop
-- its route, and the hops of each route are a path.
pub record IsSound (db : Db) : Type 0 where
  pub tunnel_nodes : All (λ t. has_nodes db t ≡ true) db.tunnels
  pub tunnel_exits : All (λ t. has_exit t ≡ true) db.tunnels
  pub forward_targets : All (λ f. has_target db f ≡ true) db.forwards
  pub hop_routes : All (λ h. has_route db h.route_id ≡ true) db.route_hops
  pub route_paths : All (λ r. IsPath (find_where (on_route r.id) db.route_hops)) db.routes

-- From a sound database to a sound one.
abbrev pub sound : Preorder
sound = record {
  R = λ a b. IsSound a → IsSound b;
  reflexive = λ db s. s;
  transitive = λ a b c h k s. k (h s);
}

-- A change of the forwards and of their ports is sound if it leaves every forward a target.
pub forwards-IsSound :
    (db : Db) (rows : List Forward) (ports : List ForwardRoutePort)
    → All (λ f. has_target db f ≡ true) rows
    → IsSound db
    → IsSound (record db { forwards = rows; route_ports = ports })
forwards-IsSound db rows ports targets s = record {
  tunnel_nodes = s.tunnel_nodes;
  tunnel_exits = s.tunnel_exits;
  forward_targets = targets;
  hop_routes = s.hop_routes;
  route_paths = s.route_paths;
}
