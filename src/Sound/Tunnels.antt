-- ===== src/Sound/Tunnels.antt =====
-- The handlers of tunnels keep the tables sound.
use flux_panel_plus.Prelude.{
  ℕ, ◌≡◌, refl, Bool, true, false, not, ◌&&◌, some, [], ◌∷◌, All-map, All-both, All-append, arith,
  ◌==◌, ltb, eq_ℤ, Option-cases, Bool-cases, inl, inr,
}
use flux_panel_plus.Prelude.Text.{Text}
use flux_panel_plus.Prelude.Table.{
  count_where, by_id, has_id_found, has_id_update, has_id_delete, has_id_grow, All-update,
  All-delete, All-none,
}
use flux_panel_plus.Model.{Tunnel, Forward, Node}
use flux_panel_plus.Model.Database.{Db}
use flux_panel_plus.Response.{
  refused-false, answered-found, ok, refuse_if, or_error, tunnel_name_taken, in_node_missing,
  tunnel_not_found, tunnel_in_use,
}
use flux_panel_plus.Gost.Commands.{Env}
use flux_panel_plus.Ports.Defs.{get_node_by_id, tunnel_forward}
use flux_panel_plus.Pause.Defs.{get_tunnel}
use flux_panel_plus.Topology.Tunnels.{
  TunnelDto, TunnelUpdateDto, exit_node, out_side, new_tunnel, add_tunnel, set_tunnel,
  update_tunnel_row, delete_tunnel_rows, has_forwards, create_tunnel, update_tunnel, delete_tunnel,
}
use flux_panel_plus.Update.Relates.{Relates, answered-Relates, query-Relates}
use flux_panel_plus.Sound.Defs.{has_node, has_nodes, has_exit, has_target, IsSound, sound}

found-has_node :
    (db : Db) (id : ℕ) {n : Node} → get_node_by_id db id ≡ some n → has_node db id ≡ true
unfolding get_node_by_id
found-has_node db id h = has_id_found (λ (n : Node). n.id) id db.nodes h

exit_node_sound :
    (db : Db) (d : TunnelDto) (out : ℕ × Text)
    → exit_node db d ≡ ok out
    → (has_node db out.0 ≡ true) × ((out.0 == d.in_node_id) ≡ false)
unfolding exit_node
exit_node_sound db d out h = elim (Option-cases d.out_node_id) [
  | inl n ↦ absurd (ground (arith, n, h))
  | inr (o, e) ↦ elim (Bool-cases (o == d.in_node_id)) [
    | inl same ↦ absurd (ground (arith, e, same, h))
    | inr differ ↦ elim (Option-cases (get_node_by_id db o)) [
      | inl n ↦ absurd (ground (arith, e, differ, n, h))
      | inr (node, found) ↦ ground (arith, e, differ, found, h, found-has_node db o found)
    ]
  ]
]

module _ (env : Env) (same_name : Text → Text → Bool) where
  add_tunnel-IsSound :
      (db : Db) (t : Tunnel)
      → has_nodes db t ≡ true
      → has_exit t ≡ true
      → IsSound db
      → IsSound (add_tunnel t db)
  add_tunnel-IsSound db t nodes exit s = record {
    tunnel_nodes =
        All-append (λ t. has_nodes db t ≡ true) db.tunnels (t ∷ []) s.tunnel_nodes (nodes, tt);
    tunnel_exits =
        All-append (λ t. has_exit t ≡ true) db.tunnels (t ∷ []) s.tunnel_exits (exit, tt);
    forward_targets =
        All-map (λ f. has_target db f ≡ true) (λ f. has_target (add_tunnel t db) f ≡ true)
          db.forwards
          (λ f h.
            ground (arith, h, has_id_grow (λ (t : Tunnel). t.id) f.tunnel_id db.tunnels (t ∷ [])))
          s.forward_targets;
    hop_routes = s.hop_routes;
    route_paths = s.route_paths;
  }

  new_tunnel_sound :
      (db : Db) (id : ℕ) (d : TunnelDto) (n : Node) (out : ℕ × Text)
      → get_node_by_id db d.in_node_id ≡ some n
      → out_side db d n ≡ ok out
      → (has_nodes db (new_tunnel env.now id d n out) ≡ true)
        × (has_exit (new_tunnel env.now id d n out) ≡ true)
  unfolding out_side
  new_tunnel_sound db id d n out found side = elim (Bool-cases (eq_ℤ d.type tunnel_forward)) [
    | inl two ↦
        let (node, differ) = exit_node_sound db d out (ground (arith, two, side)) in
        (ground (arith, found-has_node db d.in_node_id found, node), ground (arith, two, differ))
    | inr one ↦
        (ground (arith, one, side, found-has_node db d.in_node_id found), ground (arith, one))
  ]

  -- A tunnel that is created has its nodes, and two of them where it is between nodes.
  pub create_tunnel-IsSound :
      (id : ℕ) (d : TunnelDto) → Relates sound (create_tunnel env same_name id d)
  unfolding create_tunnel
  create_tunnel-IsSound id d =
      query-Relates sound
        (λ db.
          refuse_if (ltb 0 (count_where (λ (t : Tunnel). same_name t.name d.name) db.tunnels))
            tunnel_name_taken)
        _
        (λ u w.
          answered-Relates sound (λ db. or_error (get_node_by_id db d.in_node_id) in_node_missing) _
            w
            (λ n found.
              answered-Relates sound (λ db. out_side db d n) _ w
                (λ out side.
                  let (nodes, exit) =
                    new_tunnel_sound w.db id d n out
                      (answered-found (get_node_by_id w.db d.in_node_id) in_node_missing found)
                      side in
                  add_tunnel-IsSound w.db (new_tunnel env.now id d n out) nodes exit)))

  -- A change of the columns that UpdateTunnel sets.
  pub update_row-IsSound :
      (db : Db) (id : ℕ) (g : Tunnel → Tunnel)
      → ((t : Tunnel)
          → ((g t).id ≡ t.id)
            × (has_nodes db (g t) ≡ has_nodes db t)
            × (has_exit (g t) ≡ has_exit t))
      → IsSound db
      → IsSound (update_tunnel_row id g db)
  update_row-IsSound db id g keep s = record {
    tunnel_nodes =
        All-update (λ t. has_nodes db t ≡ true) (by_id (λ (t : Tunnel). t.id) id) g db.tunnels
          (λ t h. ground (arith, keep t, h)) s.tunnel_nodes;
    tunnel_exits =
        All-update (λ t. has_exit t ≡ true) (by_id (λ (t : Tunnel). t.id) id) g db.tunnels
          (λ t h. ground (arith, keep t, h)) s.tunnel_exits;
    forward_targets =
        All-map (λ f. has_target db f ≡ true) (λ f. has_target (update_tunnel_row id g db) f ≡ true)
          db.forwards
          (λ f h. ground (
            arith,
            h,
            has_id_update (λ (t : Tunnel). t.id) (by_id (λ (t : Tunnel). t.id) id) g f.tunnel_id
                db.tunnels (λ t. (keep t).0),
          ))
          s.forward_targets;
    hop_routes = s.hop_routes;
    route_paths = s.route_paths;
  }

  pub update_tunnel-IsSound : (d : TunnelUpdateDto) → Relates sound (update_tunnel env same_name d)
  unfolding update_tunnel
  update_tunnel-IsSound d =
      query-Relates sound (λ db. or_error (get_tunnel db d.id) tunnel_not_found) _
        (λ t.
          query-Relates sound
            (λ db.
              refuse_if
                (ltb 0 (
                  count_where (λ (t : Tunnel). same_name t.name d.name && not (t.id == d.id))
                    db.tunnels))
                tunnel_name_taken)
            _
            (λ u w. update_row-IsSound w.db d.id (set_tunnel env.now d) (λ t. (refl, refl, refl))))

delete_rows-IsSound :
    (db : Db) (id : ℕ)
    → has_forwards db id ≡ false
    → IsSound db
    → IsSound (delete_tunnel_rows id db)
delete_rows-IsSound db id unused s = record {
  tunnel_nodes =
      All-delete (λ t. has_nodes db t ≡ true) (by_id (λ (t : Tunnel). t.id) id) db.tunnels
        (All-map (λ t. has_nodes db t ≡ true) _ db.tunnels (λ t h n. h) s.tunnel_nodes);
  tunnel_exits =
      All-delete (λ t. has_exit t ≡ true) (by_id (λ (t : Tunnel). t.id) id) db.tunnels
        (All-map (λ t. has_exit t ≡ true) _ db.tunnels (λ t h n. h) s.tunnel_exits);
  forward_targets =
      All-map (λ f. (has_target db f ≡ true) × ((f.tunnel_id == id) ≡ false))
        (λ f. has_target (delete_tunnel_rows id db) f ≡ true) db.forwards
        (λ f h. ground (arith, h, has_id_delete (λ (t : Tunnel). t.id) f.tunnel_id id db.tunnels))
        (All-both (λ f. has_target db f ≡ true) (λ f. (f.tunnel_id == id) ≡ false) db.forwards
          s.forward_targets (All-none (λ (f : Forward). f.tunnel_id == id) db.forwards unused));
  hop_routes = s.hop_routes;
  route_paths = s.route_paths;
}

-- A tunnel that is deleted has no forward.
pub delete_tunnel-IsSound : (id : ℕ) → Relates sound (delete_tunnel id)
unfolding delete_tunnel
delete_tunnel-IsSound id =
    query-Relates sound (λ db. or_error (get_tunnel db id) tunnel_not_found) _
      (λ t w.
        answered-Relates sound (λ db. refuse_if (has_forwards db id) tunnel_in_use) _ w
          (λ u unused.
            delete_rows-IsSound w.db id
              (refused-false (has_forwards w.db id) tunnel_in_use unused)))
