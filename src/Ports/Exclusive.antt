-- ===== src/Ports/Exclusive.antt =====
-- Creating forwards on allocated ports never puts two listeners on one port of a node.
use flux_panel_plus.Prelude.{
  ℕ, ◌+◌, ◌≤◌, ◌<◌, ◌≡◌, ◌≢◌, ◌⊎◌, Bool, true, false, Option, none, some, [], ◌∷◌, ◌++◌, arith,
}
use flux_panel_plus.Prelude.Table.{count_where_append, Distinct}
use flux_panel_plus.Model.{Tunnel, Forward}
use flux_panel_plus.Model.Database.{Db}
use flux_panel_plus.Response.{ok}
use flux_panel_plus.Ports.Defs.{
  mem, entry_route_ids, get_all_used_ports_on_node, allocate_in_port, allocate_out_port,
  allocate_ports, tunnel_forward,
}
use flux_panel_plus.Ports.Claims.{
  tunnel_of, claims_in, claims_out, claims_entry, claims, used_iff_claimed, allocate_in_port_free,
  allocate_out_port_free,
}

-- `DB.Create(&forward)`: the new row has the highest id.
abbrev pub create_forward_row : Db → Forward → Db
create_forward_row db f = record db { forwards = db.forwards ++ f ∷ [] }

abbrev bit : Bool → ℕ
bit true = 1
bit false = 0

claims-create :
    (db : Db) (node_id port : ℕ) (f : Forward)
    → claims (create_forward_row db f) node_id port
      ≡ claims db node_id port
        + bit (claims_in db node_id port f)
        + bit (claims_out db node_id port f)
        + bit (claims_entry db node_id port f)
unfolding claims
claims-create db node_id port f = ground (
  arith,
  count_where_append (claims_in db node_id port) db.forwards (f ∷ []),
  count_where_append (claims_out db node_id port) db.forwards (f ∷ []),
  count_where_append (claims_entry db node_id port) db.forwards (f ∷ []),
)

allocated_parts :
    (db : Db) (t : Tunnel) (specified exclude : Option ℕ) (in_port out_port : ℕ)
    → allocate_ports db t specified exclude ≡ ok (in_port, out_port)
    → (allocate_in_port db t specified exclude ≡ ok in_port)
      × (allocate_out_port db t exclude ≡ ok out_port)
unfolding allocate_ports
allocated_parts db t specified exclude in_port out_port h = ground arith

-- A port claimed by nobody on the node where it was allocated.
unclaimed :
    (db : Db) (node_id port : ℕ)
    → Distinct (λ (t : Tunnel). t.id) db.tunnels
    → 0 < port
    → mem port (get_all_used_ports_on_node db node_id none) ≡ false
    → claims db node_id port ≡ 0
unclaimed db node_id port pk h free = ground (arith, used_iff_claimed db node_id port pk h)

-- On distinct tunnel ids, for a tunnel whose two nodes differ or that forwards to no second node:
-- creating a forward on the ports that allocation returns for its tunnel, outside every route that
-- enters at the node, leaves a port other than 0 of a node with at most one listener, if it had at
-- most one before.
pub create_keeps_exclusive :
    (db : Db) (t : Tunnel) (f : Forward) (specified : Option ℕ) (node_id port : ℕ)
    → Distinct (λ (t : Tunnel). t.id) db.tunnels
    → tunnel_of db f.tunnel_id ≡ some t
    → t.in_node_id ≢ t.out_node_id ⊎ t.type ≢ tunnel_forward
    → mem f.route_id (entry_route_ids db node_id) ≡ false
    → allocate_ports db t specified none ≡ ok (f.in_port, f.out_port)
    → 0 < port
    → claims db node_id port ≤ 1
    → claims (create_forward_row db f) node_id port ≤ 1
create_keeps_exclusive db t f specified node_id port pk found differ no_route alloc h one =
    let parts = allocated_parts db t specified none f.in_port f.out_port alloc in
    let in_free = allocate_in_port_free db t specified none f.in_port parts.0 in
    let out_free = allocate_out_port_free db t none f.out_port parts.1 in
    ground
      (arith, claims-create db node_id port f, unclaimed db node_id port pk h, in_free, out_free)
