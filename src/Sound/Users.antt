-- ===== src/Sound/Users.antt =====
-- The removal of users and of permissions keeps the tables sound.
use flux_panel_plus.Prelude.{ℕ, ◌≡◌, sym, subst, true, List, [], ◌∷◌, All, All-map, ◌==◌}
use flux_panel_plus.Prelude.Table.{find_where, delete_where, by_id, delete_each, All-delete}
use flux_panel_plus.Model.{Forward}
use flux_panel_plus.Model.Database.{Db}
use flux_panel_plus.Response.{
  or_error, refuse_if, user_not_found, admin_protected, permission_not_found,
}
use flux_panel_plus.Gost.Commands.{Env}
use flux_panel_plus.Permissions.Defs.{is_admin, get_user}
use flux_panel_plus.Update.Relates.{Relates, query-Relates}
use flux_panel_plus.Users.Deletion.{delete_user_rows, delete_user}
use flux_panel_plus.Users.Erased.{with_forwards_of, deleted_each-db}
use flux_panel_plus.Users.Permissions.{
  forwards_of, get_permission, delete_permission_row, remove_user_tunnel,
}
use flux_panel_plus.Users.Removed.{removed_each-db}
use flux_panel_plus.Sound.Defs.{has_target, IsSound, sound, forwards-IsSound}

delete_each-All :
    (P : Forward → Type 0) (ss rows : List Forward)
    → All P rows
    → All P (delete_each (λ (f : Forward). f.id) ss rows)
delete_each-All P [] rows a = a
delete_each-All P (s ∷ ss) rows a =
    delete_each-All P ss (delete_where (by_id (λ (f : Forward). f.id) s.id) rows)
      (All-delete P (by_id (λ (f : Forward). f.id) s.id) rows (All-map P _ rows (λ f h n. h) a))

delete_each-IsSound :
    (db : Db) (ss : List Forward)
    → IsSound db
    → IsSound (with_forwards_of db (delete_each (λ (f : Forward). f.id) ss db.forwards))
delete_each-IsSound db ss s =
    forwards-IsSound db (delete_each (λ (f : Forward). f.id) ss db.forwards) db.route_ports
      (delete_each-All (λ f. has_target db f ≡ true) ss db.forwards s.forward_targets) s

-- The rows that hang on a user only are none of the five tables.
user_rows-IsSound : (db : Db) (id : ℕ) → IsSound db → IsSound (delete_user_rows id db)
user_rows-IsSound db id s = record {
  tunnel_nodes = s.tunnel_nodes;
  tunnel_exits = s.tunnel_exits;
  forward_targets = s.forward_targets;
  hop_routes = s.hop_routes;
  route_paths = s.route_paths;
}

permission_row-IsSound : (db : Db) (id : ℕ) → IsSound db → IsSound (delete_permission_row id db)
permission_row-IsSound db id s = record {
  tunnel_nodes = s.tunnel_nodes;
  tunnel_exits = s.tunnel_exits;
  forward_targets = s.forward_targets;
  hop_routes = s.hop_routes;
  route_paths = s.route_paths;
}

module _ (env : Env) (id : ℕ) where
  pub delete_user-IsSound : Relates sound (delete_user env id)
  unfolding delete_user
  delete_user-IsSound =
      query-Relates sound (λ db. or_error (get_user db id) user_not_found) _
        (λ user.
          query-Relates sound (λ db. refuse_if (is_admin user.role_id) admin_protected) _
            (λ u w s.
              let fs = find_where (λ (f : Forward). f.user_id == id) w.db.forwards in
              subst IsSound (sym (deleted_each-db env id w)) (
                user_rows-IsSound
                  (with_forwards_of w.db (delete_each (λ (f : Forward). f.id) fs w.db.forwards)) id
                  (delete_each-IsSound w.db fs s))))

  pub remove_user_tunnel-IsSound : Relates sound (remove_user_tunnel env id)
  unfolding remove_user_tunnel
  remove_user_tunnel-IsSound =
      query-Relates sound (λ db. or_error (get_permission db id) permission_not_found) _
        (λ ut w s.
          subst (λ db. IsSound (delete_permission_row ut.id db)) (sym (removed_each-db env ut w))
            (permission_row-IsSound
              (with_forwards_of w.db
                (delete_each (λ (f : Forward). f.id) (forwards_of ut w.db) w.db.forwards))
              ut.id (delete_each-IsSound w.db (forwards_of ut w.db) s)))
