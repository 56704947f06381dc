-- ===== src/Sound/Hops.antt =====
-- New hops for a route keep the tables sound.
use flux_panel_plus.Prelude.{
  ℕ, ◌≡◌, sym, ap, ◌∙◌, subst, true, false, List, [], ◌∷◌, ◌++◌, All, All-map, All-both, All-append,
  arith, ◌==◌, ==_iff, Bool-cases, inl, inr,
}
use flux_panel_plus.Prelude.Table.{
  find_where, delete_where, by_id, has_id, has_id_update, has_id_grow, has_id-append, All-update,
  All-delete, find_where_none, find_where_delete, find_where_deleted,
}
use flux_panel_plus.Model.{Node, Route, RouteHop}
use flux_panel_plus.Model.Database.{Db}
use flux_panel_plus.Gost.Commands.{Env}
use flux_panel_plus.Topology.Routes.{new_hops, add_route, on_route, replace_hops}
use flux_panel_plus.Sound.Defs.{has_route, has_target, IsPath, IsSound}
use flux_panel_plus.Sound.Paths.{other_id, new_hops-All, path_of_other, path_of_new}

-- The path of a route in a table of hops.
abbrev pub PathIn : List RouteHop → Route → Type 0
PathIn hops r = IsPath (find_where (on_route r.id) hops)

-- The rows of a table that lacks a key have other keys.
lacks-All :
    (k : ℕ) (rs : List Route)
    → has_id (λ (r : Route). r.id) k rs ≡ false
    → All (λ r. (k == r.id) ≡ false) rs
lacks-All k [] h = tt
lacks-All k (r ∷ rs) h = (ground (arith, h), lacks-All k rs (ground (arith, h)))

module _ (env : Env) (hop_ids : ℕ → ℕ) (id : ℕ) (nodes : List Node) where
  abbrev pub created_hops : List RouteHop
  created_hops = new_hops env.now hop_ids id 0 nodes

  no_hops :
      (db : Db) → has_route db id ≡ false → IsSound db → find_where (on_route id) db.route_hops ≡ []
  no_hops db fresh s = find_where_none (on_route id) db.route_hops (
      All-map (λ (h : RouteHop). has_route db h.route_id ≡ true)
        (λ (h : RouteHop). on_route id h ≡ false) db.route_hops
        (λ h has. other_id (λ (r : Route). r.id) h.route_id id db.routes has fresh) s.hop_routes)

  pub add_route-IsSound :
      (db : Db) (r : Route)
      → r.id ≡ id
      → has_route db id ≡ false
      → IsPath created_hops
      → IsSound db
      → IsSound (add_route r created_hops db)
  add_route-IsSound db r same fresh path s =
      let grow = λ (k : ℕ). has_id_grow (λ (r : Route). r.id) k db.routes (r ∷ []) in
      let db' = add_route r created_hops db in
      record {
        tunnel_nodes = s.tunnel_nodes;
        tunnel_exits = s.tunnel_exits;
        forward_targets =
            All-map (λ f. has_target db f ≡ true) (λ f. has_target db' f ≡ true) db.forwards
              (λ f h. ground (arith, h, grow f.route_id)) s.forward_targets;
        hop_routes =
            All-append (λ h. has_route db' h.route_id ≡ true) db.route_hops created_hops
              (All-map (λ h. has_route db h.route_id ≡ true) (λ h. has_route db' h.route_id ≡ true)
                db.route_hops (λ h. grow h.route_id) s.hop_routes)
              (new_hops-All env.now hop_ids id (λ h. has_route db' h.route_id ≡ true) 0 nodes
                (λ h e. ground (
                  arith,
                  same,
                  e,
                  has_id-append (λ (r : Route). r.id) h.route_id db.routes (r ∷ []),
                )));
        route_paths =
            All-append (PathIn (db.route_hops ++ created_hops)) db.routes (r ∷ [])
              (All-map (λ q. PathIn db.route_hops q × ((id == q.id) ≡ false))
                (PathIn (db.route_hops ++ created_hops)) db.routes
                (λ q h.
                  subst IsPath (sym (path_of_other env.now hop_ids id nodes db.route_hops q.id h.1))
                    h.0)
                (All-both (PathIn db.route_hops) (λ q. (id == q.id) ≡ false) db.routes s.route_paths
                  (lacks-All id db.routes fresh)))
              (
                subst (λ k. IsPath (find_where (on_route k) (db.route_hops ++ created_hops)))
                    (sym same)
                    (subst IsPath
                      (sym
                        (path_of_new env.now hop_ids id nodes db.route_hops (no_hops db fresh s)))
                      path),
                tt,
              );
      }

  replaced_path :
      (hops : List RouteHop) (q : Route)
      → IsPath created_hops
      → PathIn hops q
      → PathIn (delete_where (on_route id) hops ++ created_hops) q
  replaced_path hops q path old =
      let left = delete_where (on_route id) hops in
      elim (Bool-cases (id == q.id)) [
        | inl e ↦
            subst (λ k. IsPath (find_where (on_route k) (left ++ created_hops)))
              ((==_iff id q.id).0 e)
              (subst IsPath
                (sym (
                  path_of_new env.now hop_ids id nodes left
                    (find_where_deleted (on_route id) hops)))
                path)
        | inr n ↦
            subst IsPath
              (sym (
                path_of_other env.now hop_ids id nodes left q.id n
                ∙ find_where_delete (on_route q.id) (on_route id) hops
                    (λ h e. ground (arith, e, n))))
              old
      ]

  pub replace_hops-IsSound :
      (db : Db) (g : Route → Route)
      → ((r : Route) → (g r).id ≡ r.id)
      → has_route db id ≡ true
      → IsPath created_hops
      → IsSound db
      → IsSound (replace_hops id g created_hops db)
  replace_hops-IsSound db g keep has path s =
      let by = by_id (λ (r : Route). r.id) id in
      let same = λ (k : ℕ). has_id_update (λ (r : Route). r.id) by g k db.routes keep in
      let db' = replace_hops id g created_hops db in
      record {
        tunnel_nodes = s.tunnel_nodes;
        tunnel_exits = s.tunnel_exits;
        forward_targets =
            All-map (λ f. has_target db f ≡ true) (λ f. has_target db' f ≡ true) db.forwards
              (λ f h. ground (arith, h, same f.route_id)) s.forward_targets;
        hop_routes =
            All-append (λ h. has_route db' h.route_id ≡ true)
              (delete_where (on_route id) db.route_hops) created_hops
              (All-delete (λ h. has_route db' h.route_id ≡ true) (on_route id) db.route_hops
                (All-map (λ h. has_route db h.route_id ≡ true) _ db.route_hops
                  (λ h e n. same h.route_id ∙ e) s.hop_routes))
              (new_hops-All env.now hop_ids id (λ h. has_route db' h.route_id ≡ true) 0 nodes
                (λ h e. same h.route_id ∙ ap (has_route db) e ∙ has));
        route_paths =
            All-update (PathIn db'.route_hops) by g db.routes
              (λ r h. subst (λ k. IsPath (find_where (on_route k) db'.route_hops)) (sym (keep r)) h)
              (All-map (PathIn db.route_hops) (PathIn db'.route_hops) db.routes
                (λ q. replaced_path db.route_hops q path) s.route_paths);
      }
