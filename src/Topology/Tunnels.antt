-- ===== src/Topology/Tunnels.antt =====
-- go-backend/service/tunnel.go: CreateTunnel, UpdateTunnel, UpdateTunnelOrder, DeleteTunnel. How the
-- database compares two names is a parameter.
use flux_panel_plus.Prelude.{
  ℕ, ℤ, pos, eq_ℤ, Bool, not, ◌&&◌, Option, none, some, List, [], ◌∷◌, ◌++◌, ◌==◌, ltb,
  if◌then◌else◌,
}
use flux_panel_plus.Prelude.Text.{Text, codes, is_empty}
use flux_panel_plus.Prelude.Table.{count_where, update_where, delete_where, by_id, for_each}
use flux_panel_plus.Model.{Tunnel, Node}
use flux_panel_plus.Model.Database.{Db}
use flux_panel_plus.Response.{
  Result, ok, err, refuse_if, or_error, tunnel_name_taken, in_node_missing, out_node_required,
  nodes_must_differ, out_node_missing, tunnel_not_found, tunnel_in_use,
}
use flux_panel_plus.Gost.Commands.{Env}
use flux_panel_plus.Ports.Defs.{get_node_by_id, tunnel_forward}
use flux_panel_plus.Pause.Defs.{get_tunnel}
use flux_panel_plus.Actions.{Action, ◌>>=◌, ◌>>◌, query, change, perform}

pub record TunnelDto : Type 0 where
  pub name : Text
  pub in_node_id : ℕ
  pub out_node_id : Option ℕ
  pub type : ℤ
  pub flow : ℤ
  pub traffic_ratio : Option ℕ
  pub interface_name : Text
  pub protocol : Text
  pub tcp_listen_addr : Text
  pub udp_listen_addr : Text

pub record TunnelUpdateDto : Type 0 where
  pub id : ℕ
  pub name : Text
  pub flow : ℤ
  pub traffic_ratio : Option ℕ
  pub protocol : Text
  pub tcp_listen_addr : Text
  pub udp_listen_addr : Text
  pub interface_name : Text

-- A new position for a row.
pub record OrderItem : Type 0 where
  pub id : ℕ
  pub inx : ℤ

abbrev pub or_text : Text → Text → Text
or_text default s = if is_empty s then default else s

-- The 64 bits of 1.0.
abbrev pub ratio_one : ℕ
ratio_one = 4607182418800017408

abbrev pub or_ratio : ℕ → Option ℕ → ℕ
or_ratio default none = default
or_ratio default (some r) = r

-- The exit node of a tunnel that forwards to another node, with its address.
unfoldable pub exit_node : Db → TunnelDto → Result (ℕ × Text)
unfolding get_node_by_id
exit_node db d = elim d.out_node_id [
  | none ↦ err out_node_required
  | some out ↦ if out == d.in_node_id then err nodes_must_differ else elim (get_node_by_id db out) [
    | none ↦ err out_node_missing
    | some node ↦ ok (out, node.server_ip)
  ]
]

unfoldable pub out_side : Db → TunnelDto → Node → Result (ℕ × Text)
unfolding exit_node
out_side db d in_node =
    if eq_ℤ d.type tunnel_forward then exit_node db d else ok (d.in_node_id, in_node.server_ip)

abbrev pub new_tunnel : ℤ → ℕ → TunnelDto → Node → ℕ × Text → Tunnel
new_tunnel now id d in_node out = record {
  id = id;
  name = d.name;
  traffic_ratio = or_ratio ratio_one d.traffic_ratio;
  in_node_id = d.in_node_id;
  in_ip = in_node.server_ip;
  out_node_id = out.0;
  out_ip = out.1;
  type = d.type;
  protocol = or_text (codes "tls") d.protocol;
  flow = d.flow;
  tcp_listen_addr = or_text (codes "::") d.tcp_listen_addr;
  udp_listen_addr = or_text (codes "::") d.udp_listen_addr;
  interface_name = d.interface_name;
  created_time = now;
  updated_time = now;
  status = pos 1;
  inx = pos 0;
}

abbrev pub add_tunnel : Tunnel → Db → Db
add_tunnel t db = record db { tunnels = db.tunnels ++ t ∷ [] }

-- The columns of UpdateTunnel: the nodes of a tunnel are not among them.
abbrev pub set_tunnel : ℤ → TunnelUpdateDto → Tunnel → Tunnel
set_tunnel now d t = record t {
  name = d.name;
  flow = d.flow;
  protocol = d.protocol;
  tcp_listen_addr = d.tcp_listen_addr;
  udp_listen_addr = d.udp_listen_addr;
  interface_name = d.interface_name;
  updated_time = now;
  traffic_ratio = or_ratio t.traffic_ratio d.traffic_ratio;
}

abbrev pub update_tunnel_row : ℕ → (Tunnel → Tunnel) → Db → Db
update_tunnel_row id g db = record db {
  tunnels = update_where (by_id (λ (t : Tunnel). t.id) id) g db.tunnels;
}

abbrev pub delete_tunnel_rows : ℕ → Db → Db
delete_tunnel_rows id db = record db {
  user_tunnels = delete_where (λ ut. ut.tunnel_id == id) db.user_tunnels;
  tunnels = delete_where (by_id (λ (t : Tunnel). t.id) id) db.tunnels;
}

abbrev pub has_forwards : Db → ℕ → Bool
has_forwards db id = ltb 0 (count_where (λ f. f.tunnel_id == id) db.forwards)

module _ (env : Env) (same_name : Text → Text → Bool) where
  unfoldable pub create_tunnel : ℕ → TunnelDto → Action Tunnel
  unfolding get_node_by_id out_side
  create_tunnel id d = do
    query (λ db.
        refuse_if (ltb 0 (count_where (λ (t : Tunnel). same_name t.name d.name) db.tunnels))
          tunnel_name_taken)
    in_node ← query (λ db. or_error (get_node_by_id db d.in_node_id) in_node_missing)
    out ← query (λ db. out_side db d in_node)
    let t = new_tunnel env.now id d in_node out
    change (add_tunnel t)
    λ w. (ok t, w)

  unfoldable pub update_tunnel : TunnelUpdateDto → Action {0} Unit
  unfolding get_tunnel
  update_tunnel d = do
    query (λ db. or_error (get_tunnel db d.id) tunnel_not_found)
    query (λ db.
        refuse_if
          (ltb 0 (
            count_where (λ (t : Tunnel). same_name t.name d.name && not (t.id == d.id)) db.tunnels))
          tunnel_name_taken)
    change (update_tunnel_row d.id (set_tunnel env.now d))

abbrev pub set_tunnel_inx : ℤ → Tunnel → Tunnel
set_tunnel_inx inx t = record t { inx = inx }

unfoldable pub update_tunnel_order : List OrderItem → Action {0} Unit
update_tunnel_order items = perform (
    for_each (λ item w. record w { db = update_tunnel_row item.id (set_tunnel_inx item.inx) w.db })
      items)

unfoldable pub delete_tunnel : ℕ → Action {0} Unit
unfolding get_tunnel
delete_tunnel id = do
  query (λ db. or_error (get_tunnel db id) tunnel_not_found)
  query (λ db. refuse_if (has_forwards db id) tunnel_in_use)
  change (delete_tunnel_rows id)
