-- ===== src/Sound/Nodes.antt =====
-- The handlers of nodes keep the tables sound.
use flux_panel_plus.Prelude.{
  ℕ, ◌≡◌, refl, sym, subst, ap, ◌∙◌, Bool-cases, inl, inr, Bool, true, false, ◌||◌, List, [], ◌∷◌,
  ◌++◌, All-map, All-both, arith, ◌==◌, leb, if◌then◌else◌,
}
use flux_panel_plus.Prelude.Text.{Text}
use flux_panel_plus.Prelude.Table.{
  find_where, update_where, delete_where, by_id, for_each, has_id_update, has_id_delete,
  has_id_grow, All-update, All-none,
}
use flux_panel_plus.Model.{Node, Tunnel, XrayInbound, XrayClient}
use flux_panel_plus.Model.Database.{Db}
use flux_panel_plus.Response.{
  refused-false, refuse_if, or_error, node_not_found, port_range_invalid, node_in_use,
}
use flux_panel_plus.Gost.Commands.{World, Env, send_msg, xray_remove_inbound, remove_inbound}
use flux_panel_plus.Ports.Defs.{get_node_by_id}
use flux_panel_plus.Pause.Exact.{send_msg-db}
use flux_panel_plus.Topology.Nodes.{
  NodeDto, NodeUpdateDto, NodeSetProtocolDto, new_node, set_node, readdress_tunnels, is_readdressed,
  update_node_row, delete_node_rows, used_by_tunnel, create_node, update_node, set_node_protocol,
  drop_inbound, drop_inbounds, delete_node,
}
use flux_panel_plus.Update.Relates.{Relates, answered-Relates, query-Relates}
use flux_panel_plus.Sound.Defs.{has_node, has_nodes, has_exit, has_target, IsSound, sound}

-- A table of nodes that has the ids of the old one.
nodes-IsSound :
    (db : Db) (rows : List Node)
    → ((k : ℕ) → has_node db k ≡ true → has_node (record db { nodes = rows }) k ≡ true)
    → IsSound db
    → IsSound (record db { nodes = rows })
nodes-IsSound db rows keep s = record {
  tunnel_nodes =
      All-map (λ t. has_nodes db t ≡ true) (λ t. has_nodes (record db { nodes = rows }) t ≡ true)
        db.tunnels (λ t h. ground (arith, h, keep t.in_node_id, keep t.out_node_id)) s.tunnel_nodes;
  tunnel_exits = s.tunnel_exits;
  forward_targets = s.forward_targets;
  hop_routes = s.hop_routes;
  route_paths = s.route_paths;
}

update_row-IsSound :
    (db : Db) (id : ℕ) (g : Node → Node)
    → ((n : Node) → (g n).id ≡ n.id)
    → IsSound db
    → IsSound (update_node_row id g db)
update_row-IsSound db id g keep =
    let by = by_id (λ (n : Node). n.id) id in
    nodes-IsSound db (update_where by g db.nodes)
      (λ k has. has_id_update (λ (n : Node). n.id) by g k db.nodes keep ∙ has)

-- The addresses that a tunnel keeps of its nodes.
tunnels-IsSound :
    (db : Db) (q : Tunnel → Bool) (g : Tunnel → Tunnel)
    → ((t : Tunnel)
        → ((g t).id ≡ t.id) × (has_nodes db (g t) ≡ has_nodes db t) × (has_exit (g t) ≡ has_exit t))
    → IsSound db
    → IsSound (record db { tunnels = update_where q g db.tunnels })
tunnels-IsSound db q g keep s = record {
  tunnel_nodes =
      All-update (λ t. has_nodes db t ≡ true) q g db.tunnels (λ t h. ground (arith, keep t, h))
        s.tunnel_nodes;
  tunnel_exits =
      All-update (λ t. has_exit t ≡ true) q g db.tunnels (λ t h. ground (arith, keep t, h))
        s.tunnel_exits;
  forward_targets =
      All-map (λ f. has_target db f ≡ true)
        (λ f. has_target (record db { tunnels = update_where q g db.tunnels }) f ≡ true) db.forwards
        (λ f h. ground (
          arith,
          h,
          has_id_update (λ (t : Tunnel). t.id) q g f.tunnel_id db.tunnels (λ t. (keep t).0),
        ))
        s.forward_targets;
  hop_routes = s.hop_routes;
  route_paths = s.route_paths;
}

readdress_tunnels-IsSound :
    (b : Bool) (id : ℕ) (ip : Text) (db : Db)
    → IsSound db
    → IsSound ((if b then readdress_tunnels id ip else λ db. db) db)
readdress_tunnels-IsSound false id ip db s = s
readdress_tunnels-IsSound true id ip db s =
    let db' : Db = record db {
      tunnels =
          update_where (λ (t : Tunnel). t.in_node_id == id) (λ t. record t { in_ip = ip })
            db.tunnels;
    } in
    tunnels-IsSound db' (λ (t : Tunnel). t.out_node_id == id) (λ t. record t { out_ip = ip })
      (λ t. (refl, refl, refl))
      (tunnels-IsSound db (λ (t : Tunnel). t.in_node_id == id) (λ t. record t { in_ip = ip })
        (λ t. (refl, refl, refl)) s)

module _ (env : Env) where
  pub create_node-IsSound :
      (id : ℕ) (secret : Text) (names : Text × Text) (d : NodeDto)
      → Relates sound (create_node env id secret names d)
  unfolding create_node
  create_node-IsSound id secret names d =
      query-Relates sound (λ db. refuse_if (leb d.port_end d.port_sta) port_range_invalid) _
        (λ u w.
          let n = new_node env.now id secret names d in
          nodes-IsSound w.db (w.db.nodes ++ n ∷ [])
            (λ k. has_id_grow (λ (n : Node). n.id) k w.db.nodes (n ∷ [])))

  pub update_node-IsSound : (d : NodeUpdateDto) → Relates sound (update_node env d)
  unfolding update_node
  update_node-IsSound d =
      query-Relates sound (λ db. or_error (get_node_by_id db d.id) node_not_found) _
        (λ n w s.
          let readdress =
            if is_readdressed d n then readdress_tunnels d.id d.server_ip else λ db. db in
          update_row-IsSound (readdress w.db) d.id (set_node env.now d) (λ r. refl)
            (readdress_tunnels-IsSound (is_readdressed d n) d.id d.server_ip w.db s))

  pub set_node_protocol-IsSound : (d : NodeSetProtocolDto) → Relates sound (set_node_protocol env d)
  unfolding set_node_protocol send_msg
  set_node_protocol-IsSound d =
      query-Relates sound (λ db. or_error (get_node_by_id db d.id) node_not_found) _
        (λ n w s. elim (Bool-cases (env.is_node_online d.id)) [
          | inl on ↦ rw on (update_row-IsSound w.db d.id _ (λ r. refl) s)
          | inr off ↦ rw off (update_row-IsSound w.db d.id _ (λ r. refl) s)
        ])

-- A deletion of the inbounds changes the clients only.
abbrev with_clients : Db → List XrayClient → Db
with_clients db clients = record db { xray_clients = clients }

module _ (env : Env) (id : ℕ) where
  drop_inbound-clients :
      (ib : XrayInbound) (db : Db) (cs : List XrayClient) (w : World)
      → w.db ≡ with_clients db cs
      → (cs' : List XrayClient) × ((drop_inbound env id ib w).db ≡ with_clients db cs')
  unfolding drop_inbound xray_remove_inbound
  drop_inbound-clients ib db cs w e =
      let drop = delete_where (λ (c : XrayClient). c.inbound_id == ib.id) in
      (
        drop cs,
        ap (λ (x : Db). record x { xray_clients = drop x.xray_clients })
            (send_msg-db env id (remove_inbound ib.tag) w ∙ e),
      )

  drop_each-clients :
      (ibs : List XrayInbound) (db : Db) (cs : List XrayClient) (w : World)
      → w.db ≡ with_clients db cs
      → (cs' : List XrayClient) × ((for_each (drop_inbound env id) ibs w).db ≡ with_clients db cs')
  drop_each-clients [] db cs w e = (cs, e)
  drop_each-clients (ib ∷ ibs) db cs w e =
      let (cs', e') = drop_inbound-clients ib db cs w e in
      drop_each-clients ibs db cs' (drop_inbound env id ib w) e'

  delete_rows-IsSound :
      (db : Db) (cs : List XrayClient)
      → used_by_tunnel db id ≡ false
      → IsSound db
      → IsSound (delete_node_rows id (with_clients db cs))
  delete_rows-IsSound db cs unused s =
      let db' = delete_node_rows id (with_clients db cs) in
      let without = λ (k : ℕ). has_id_delete (λ (n : Node). n.id) k id db.nodes in
      let uses = λ (t : Tunnel). (t.in_node_id == id) || (t.out_node_id == id) in
      record {
        tunnel_nodes =
            All-map (λ t. (has_nodes db t ≡ true) × (uses t ≡ false)) (λ t. has_nodes db' t ≡ true)
              db.tunnels (λ t h. ground (arith, h, without t.in_node_id, without t.out_node_id))
              (All-both (λ t. has_nodes db t ≡ true) (λ t. uses t ≡ false) db.tunnels s.tunnel_nodes
                (All-none uses db.tunnels unused));
        tunnel_exits = s.tunnel_exits;
        forward_targets = s.forward_targets;
        hop_routes = s.hop_routes;
        route_paths = s.route_paths;
      }

  -- A node that is deleted is no tunnel's.
  pub delete_node-IsSound : Relates sound (delete_node env id)
  unfolding delete_node drop_inbounds
  delete_node-IsSound w =
      answered-Relates sound (λ db. or_error (get_node_by_id db id) node_not_found) _ w
        (λ n found.
          answered-Relates sound (λ db. refuse_if (used_by_tunnel db id) node_in_use) _ w
            (λ u unused s.
              let ibs = find_where (λ ib. ib.node_id == id) w.db.xray_inbounds in
              let (cs, e) = drop_each-clients ibs w.db w.db.xray_clients w refl in
              subst (λ db. IsSound (delete_node_rows id db)) (sym e)
                (delete_rows-IsSound w.db cs
                  (refused-false (used_by_tunnel w.db id) node_in_use unused) s)))
