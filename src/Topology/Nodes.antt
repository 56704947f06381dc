-- ===== src/Topology/Nodes.antt =====
-- go-backend/service/node.go: CreateNode, UpdateNode, SetNodeProtocol, DeleteNode, UpdateNodeOrder.
-- The secret and the names that are drawn at random for a new node are arguments.
use flux_panel_plus.Prelude.{
  ℕ, ℤ, pos, Bool, not, ◌||◌, ◌&&◌, Option, none, some, List, [], ◌∷◌, ◌++◌, ◌==◌, ltb, leb,
  if◌then◌else◌,
}
use flux_panel_plus.Prelude.Text.{Text, is_empty, text_eq}
use flux_panel_plus.Prelude.Table.{
  find_where, count_where, update_where, delete_where, by_id, for_each,
}
use flux_panel_plus.Model.{Node, Tunnel, XrayInbound}
use flux_panel_plus.Model.Database.{Db}
use flux_panel_plus.Response.{
  ok, refuse_if, or_error, node_not_found, port_range_invalid, node_in_use,
}
use flux_panel_plus.Gost.Commands.{World, Env, send_msg, set_protocol, xray_remove_inbound}
use flux_panel_plus.Ports.Defs.{get_node_by_id}
use flux_panel_plus.Topology.Tunnels.{OrderItem}
use flux_panel_plus.Actions.{Action, ◌>>=◌, ◌>>◌, query, change, perform}

pub record NodeDto : Type 0 where
  pub name : Text
  pub ip : Text
  pub entry_ips : Text
  pub server_ip : Text
  pub port_sta : ℕ
  pub port_end : ℕ
  pub group_name : Text

pub record NodeUpdateDto : Type 0 where
  pub id : ℕ
  pub name : Text
  pub ip : Text
  pub entry_ips : Text
  pub server_ip : Text
  pub port_sta : Option ℕ
  pub port_end : Option ℕ
  pub group_name : Option Text

pub record NodeSetProtocolDto : Type 0 where
  pub id : ℕ
  pub http : ℤ
  pub tls : ℤ
  pub socks : ℤ

abbrev pub new_node : ℤ → ℕ → Text → Text × Text → NodeDto → Node
new_node now id secret names d = record {
  id = id;
  name = d.name;
  secret = secret;
  ip = d.ip;
  entry_ips = d.entry_ips;
  server_ip = d.server_ip;
  port_sta = d.port_sta;
  port_end = d.port_end;
  version = [];
  http = pos 0;
  tls = pos 0;
  socks = pos 0;
  xray_enabled = pos 0;
  xray_version = [];
  xray_status = pos 0;
  created_time = now;
  updated_time = now;
  status = pos 0;
  inx = pos 0;
  group_name = d.group_name;
  disguise_name = names.0;
  xray_disguise_name = names.1;
}

abbrev pub add_node : Node → Db → Db
add_node n db = record db { nodes = db.nodes ++ n ∷ [] }

abbrev pub kept_text : Text → Text → Text
kept_text old new = if is_empty new then old else new

abbrev pub or_old {ℓ} : {A : Type ℓ} → A → Option A → A
or_old old none = old
or_old old (some new) = new

abbrev pub set_node : ℤ → NodeUpdateDto → Node → Node
set_node now d n = record n {
  updated_time = now;
  name = kept_text n.name d.name;
  ip = kept_text n.ip d.ip;
  entry_ips = d.entry_ips;
  server_ip = kept_text n.server_ip d.server_ip;
  port_sta = or_old n.port_sta d.port_sta;
  port_end = or_old n.port_end d.port_end;
  group_name = or_old n.group_name d.group_name;
}

-- The address of a node is copied into its tunnels.
abbrev pub readdress_tunnels : ℕ → Text → Db → Db
readdress_tunnels id server_ip db = record db {
  tunnels =
      update_where (λ (t : Tunnel). t.out_node_id == id) (λ t. record t { out_ip = server_ip })
        (update_where (λ (t : Tunnel). t.in_node_id == id) (λ t. record t { in_ip = server_ip })
          db.tunnels);
}

abbrev pub is_readdressed : NodeUpdateDto → Node → Bool
is_readdressed d n = not (is_empty d.server_ip) && not (text_eq n.server_ip d.server_ip)

abbrev pub update_node_row : ℕ → (Node → Node) → Db → Db
update_node_row id g db = record db {
  nodes = update_where (by_id (λ (n : Node). n.id) id) g db.nodes;
}

-- The rows that hang on a node.
abbrev pub delete_node_rows : ℕ → Db → Db
delete_node_rows id db = record db {
  xray_inbounds = delete_where (λ ib. ib.node_id == id) db.xray_inbounds;
  xray_certs = delete_where (λ c. c.node_id == id) db.xray_certs;
  user_nodes = delete_where (λ un. un.node_id == id) db.user_nodes;
  nodes = delete_where (by_id (λ (n : Node). n.id) id) db.nodes;
}

abbrev pub used_by_tunnel : Db → ℕ → Bool
used_by_tunnel db id =
    ltb 0 (count_where (λ (t : Tunnel). t.in_node_id == id || t.out_node_id == id) db.tunnels)

module _ (env : Env) where
  unfoldable pub create_node : ℕ → Text → Text × Text → NodeDto → Action Node
  create_node id secret names d = do
    query (λ db. refuse_if (leb d.port_end d.port_sta) port_range_invalid)
    let n = new_node env.now id secret names d
    change (add_node n)
    λ w. (ok n, w)

  unfoldable pub update_node : NodeUpdateDto → Action {0} Unit
  unfolding get_node_by_id
  update_node d = do
    n ← query (λ db. or_error (get_node_by_id db d.id) node_not_found)
    change (if is_readdressed d n then readdress_tunnels d.id d.server_ip else λ db. db)
    change (update_node_row d.id (set_node env.now d))

  abbrev pub set_node_protocol_row : NodeSetProtocolDto → Node → Node
  set_node_protocol_row d n = record n {
    http = d.http;
    tls = d.tls;
    socks = d.socks;
    updated_time = env.now;
  }

  -- What an online node answers changes the text of the response only.
  unfoldable pub set_node_protocol : NodeSetProtocolDto → Action {0} Unit
  unfolding get_node_by_id send_msg
  set_node_protocol d = do
    query (λ db. or_error (get_node_by_id db d.id) node_not_found)
    change (update_node_row d.id (set_node_protocol_row d))
    perform (λ w.
        if env.is_node_online d.id
        then (send_msg env d.id (set_protocol d.http d.tls d.socks) w).1
        else w)

  -- The loop's body: the inbound is taken off the node, and its clients are deleted.
  unfoldable pub drop_inbound : ℕ → XrayInbound → World → World
  unfolding xray_remove_inbound
  drop_inbound id ib w =
      let w' = (xray_remove_inbound env id ib.tag w).1 in
      record w' {
        db = record (w'.db) {
          xray_clients = delete_where (λ c. c.inbound_id == ib.id) w'.db.xray_clients;
        };
      }

  unfoldable pub drop_inbounds : ℕ → World → World
  unfolding drop_inbound
  drop_inbounds id w =
      for_each (drop_inbound id) (find_where (λ ib. ib.node_id == id) w.db.xray_inbounds) w

  unfoldable pub delete_node : ℕ → Action {0} Unit
  unfolding get_node_by_id drop_inbounds
  delete_node id = do
    query (λ db. or_error (get_node_by_id db id) node_not_found)
    query (λ db. refuse_if (used_by_tunnel db id) node_in_use)
    perform (drop_inbounds id)
    change (delete_node_rows id)

abbrev pub set_node_inx : ℤ → Node → Node
set_node_inx inx n = record n { inx = inx }

unfoldable pub update_node_order : List OrderItem → Action {0} Unit
update_node_order items = perform (
    for_each (λ item w. record w { db = update_node_row item.id (set_node_inx item.inx) w.db })
      items)
