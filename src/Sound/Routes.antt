-- ===== src/Sound/Routes.antt =====
-- The handlers of routes keep the tables sound.
use flux_panel_plus.Prelude.{
  ℕ, ◌≡◌, refl, sym, ◌∙◌, subst, Bool, true, false, not, ◌&&◌, All-map, All-both, arith, ◌==◌, ltb,
  if◌then◌else◌,
}
use flux_panel_plus.Prelude.Text.{Text}
use flux_panel_plus.Prelude.Table.{
  find_where, count_where, delete_where, by_id, has_id_found, has_id_update, has_id_delete,
  All-update, All-delete, All-none, find_where_delete,
}
use flux_panel_plus.Model.{Forward, Route}
use flux_panel_plus.Model.Database.{Db}
use flux_panel_plus.Response.{
  refused-false, answered-found, refuse_if, or_error, route_name_taken, route_not_found,
  route_in_use,
}
use flux_panel_plus.Gost.Commands.{World, Env}
use flux_panel_plus.Topology.Routes.{
  RouteDto, RouteUpdateDto, validate_route_nodes, new_route, on_route, rename_route, set_route,
  update_route_row, delete_route_rows, route_has_forwards, get_route, create_route,
  replace_route_hops, update_route, delete_route,
}
use flux_panel_plus.Actions.{change}
use flux_panel_plus.Update.Relates.{Relates, answered-Relates, query-Relates}
use flux_panel_plus.Sound.Defs.{has_route, has_target, IsPath, IsSound, sound}
use flux_panel_plus.Sound.Paths.{validate_route_nodes-Distinct, new_hops-IsPath}
use flux_panel_plus.Sound.Hops.{PathIn, add_route-IsSound, replace_hops-IsSound}

module _ (env : Env) (same_name : Text → Text → Bool) where
  -- With an id that no route has, a route that is created has a path.
  pub create_route-IsSound :
      (id : ℕ) (hop_ids : ℕ → ℕ) (d : RouteDto) (w : World)
      → has_route w.db id ≡ false
      → IsSound w.db
      → IsSound (create_route env same_name id hop_ids d w).1.db
  unfolding create_route new_route
  create_route-IsSound id hop_ids d w fresh =
      answered-Relates sound (λ db. validate_route_nodes db d.node_ids) _ w
        (λ nodes accepted.
          let (two, distinct) = validate_route_nodes-Distinct w.db d.node_ids nodes accepted in
          answered-Relates sound
            (λ db.
              refuse_if (ltb 0 (count_where (λ (r : Route). same_name r.name d.name) db.routes))
                route_name_taken)
            _ w
            (λ u free.
              add_route-IsSound env hop_ids id nodes w.db (new_route env.now w.db id d) refl fresh
                (new_hops-IsPath env.now hop_ids id 0 nodes two distinct)))

  rename_route-IsSound :
      (db : Db) (id : ℕ) (g : Route → Route)
      → ((r : Route) → (g r).id ≡ r.id)
      → IsSound db
      → IsSound (update_route_row id g db)
  rename_route-IsSound db id g keep s =
      let by = by_id (λ (r : Route). r.id) id in
      let same = λ (k : ℕ). has_id_update (λ (r : Route). r.id) by g k db.routes keep in
      record {
        tunnel_nodes = s.tunnel_nodes;
        tunnel_exits = s.tunnel_exits;
        forward_targets =
            All-map (λ f. has_target db f ≡ true)
              (λ f. has_target (update_route_row id g db) f ≡ true) db.forwards
              (λ f h. ground (arith, h, same f.route_id)) s.forward_targets;
        hop_routes =
            All-map (λ h. has_route db h.route_id ≡ true)
              (λ h. has_route (update_route_row id g db) h.route_id ≡ true) db.route_hops
              (λ h e. same h.route_id ∙ e) s.hop_routes;
        route_paths =
            All-update (PathIn db.route_hops) by g db.routes
              (λ r h. subst (λ k. IsPath (find_where (on_route k) db.route_hops)) (sym (keep r)) h)
              s.route_paths;
      }

  replace_route_hops-IsSound :
      (hop_ids : ℕ → ℕ) (d : RouteUpdateDto) (w : World)
      → has_route w.db d.id ≡ true
      → IsSound w.db
      → IsSound (replace_route_hops env same_name hop_ids d w).1.db
  unfolding replace_route_hops set_route
  replace_route_hops-IsSound hop_ids d w has =
      answered-Relates sound (λ db. validate_route_nodes db d.node_ids) _ w
        (λ nodes accepted.
          let (two, distinct) = validate_route_nodes-Distinct w.db d.node_ids nodes accepted in
          replace_hops-IsSound env hop_ids d.id nodes w.db (set_route env.now d) (λ r. refl) has
            (new_hops-IsPath env.now hop_ids d.id 0 nodes two distinct))

  update_either-IsSound :
      (used : Bool) (hop_ids : ℕ → ℕ) (d : RouteUpdateDto) (w : World)
      → has_route w.db d.id ≡ true
      → IsSound w.db
      → IsSound
          ((if used
              then change (update_route_row d.id (rename_route env.now d))
              else replace_route_hops env same_name hop_ids d)
            w).1.db
  update_either-IsSound true hop_ids d w has =
      rename_route-IsSound w.db d.id (rename_route env.now d) (λ r. refl)
  update_either-IsSound false hop_ids d w has = replace_route_hops-IsSound hop_ids d w has

  pub update_route-IsSound :
      (hop_ids : ℕ → ℕ) (d : RouteUpdateDto) → Relates sound (update_route env same_name hop_ids d)
  unfolding update_route
  update_route-IsSound hop_ids d w =
      answered-Relates sound (λ db. or_error (get_route db d.id) route_not_found) _ w
        (λ r found.
          answered-Relates sound
            (λ db.
              refuse_if
                (ltb 0 (
                  count_where (λ (r : Route). same_name r.name d.name && not (r.id == d.id))
                    db.routes))
                route_name_taken)
            _ w
            (λ u free. update_either-IsSound (route_has_forwards w.db d.id) hop_ids d w (
              has_id_found (λ (r : Route). r.id) d.id w.db.routes
                (answered-found (get_route w.db d.id) route_not_found found))))

delete_rows-IsSound :
    (db : Db) (id : ℕ)
    → route_has_forwards db id ≡ false
    → IsSound db
    → IsSound (delete_route_rows id db)
delete_rows-IsSound db id unused s =
    let by = by_id (λ (r : Route). r.id) id in
    let left = delete_where (on_route id) db.route_hops in
    let db' = delete_route_rows id db in
    let without = λ (k : ℕ). has_id_delete (λ (r : Route). r.id) k id db.routes in
    record {
      tunnel_nodes = s.tunnel_nodes;
      tunnel_exits = s.tunnel_exits;
      forward_targets =
          All-map (λ f. (has_target db f ≡ true) × ((f.route_id == id) ≡ false))
            (λ f. has_target db' f ≡ true) db.forwards
            (λ f h. ground (arith, h, without f.route_id))
            (All-both (λ f. has_target db f ≡ true) (λ f. (f.route_id == id) ≡ false) db.forwards
              s.forward_targets (All-none (λ (f : Forward). f.route_id == id) db.forwards unused));
      hop_routes =
          All-delete (λ h. has_route db' h.route_id ≡ true) (on_route id) db.route_hops
            (All-map (λ h. has_route db h.route_id ≡ true) _ db.route_hops
              (λ h e n. ground (arith, e, n, without h.route_id)) s.hop_routes);
      route_paths = All-delete (PathIn left) by db.routes (
          All-map (PathIn db.route_hops) _ db.routes
            (λ q h n.
              subst IsPath
                (sym (
                  find_where_delete (on_route q.id) (on_route id) db.route_hops
                    (λ x e. ground (arith, e, n))))
                h)
            s.route_paths);
    }

-- A route that is deleted has no forward, and its hops go with it.
pub delete_route-IsSound : (id : ℕ) → Relates sound (delete_route id)
unfolding delete_route
delete_route-IsSound id =
    query-Relates sound (λ db. or_error (get_route db id) route_not_found) _
      (λ t w.
        answered-Relates sound (λ db. refuse_if (route_has_forwards db id) route_in_use) _ w
          (λ u unused.
            delete_rows-IsSound w.db id
              (refused-false (route_has_forwards w.db id) route_in_use unused)))
