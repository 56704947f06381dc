-- ===== src/Tests/Users.antt =====
-- Alice is deleted, or loses her permission.
use flux_panel_plus.Prelude.{ℕ, pos, ◌≡◌, ◌↔◌, refl, true, [], ◌∷◌, if◌then◌else◌}
use flux_panel_plus.Prelude.Table.{delete_where, has_id}
use flux_panel_plus.Model.{User, UserNode, Node}
use flux_panel_plus.Model.Database.{Db}
use flux_panel_plus.Response.{ok}
use flux_panel_plus.Create.Handler.{user_has_gost_node_access}
use flux_panel_plus.Permissions.Defs.{get_user}
use flux_panel_plus.Actions.{is_ok}
use flux_panel_plus.Users.Access.{derive_user_permissions}
use flux_panel_plus.Users.Derived.{derive_user_permissions_iff}
use flux_panel_plus.Users.Deletion.{delete_user}
use flux_panel_plus.Users.Erased.{with_forwards_of, without_user, is_deletable, delete_user-db}
use flux_panel_plus.Users.Permissions.{get_permission, delete_permission_row, remove_user_tunnel}
use flux_panel_plus.Users.Removed.{is_forward_of, remove_user_tunnel-db}
use flux_panel_plus.Tests.Rows.{alice, pass, sample, world, online, half_online}

delete_user-db_example :
    let (r, w') = delete_user half_online 7 world in
    (is_ok r ≡ is_deletable (get_user sample 7))
    × (w'.db ≡ (if is_ok r then without_user 7 sample else sample))
delete_user-db_example = delete_user-db half_online 7 world (refl, tt)

deletion_succeeds : is_ok (delete_user half_online 7 world).0 ≡ true
unfolding delete_user
deletion_succeeds = refl

remove_user_tunnel-db_example :
    let (r, w') = remove_user_tunnel online 3 world in
    (r ≡ ok tt)
    × (w'.db
        ≡ delete_permission_row 3
            (with_forwards_of sample (delete_where (is_forward_of pass) sample.forwards)))
unfolding get_permission
remove_user_tunnel-db_example = remove_user_tunnel-db online pass 3 world refl (refl, tt)

abbrev on_one_node : UserNode
on_one_node = record {
  id = 1;
  user_id = 7;
  node_id = 5;
  xray_enabled = pos 0;
  gost_enabled = pos 1;
}

abbrev restricted : Db
restricted = record sample { user_nodes = on_one_node ∷ [] }

abbrev derived : User
derived = record alice { gost_enabled = pos 1; xray_enabled = pos 0 }

derive_user_permissions_iff_example : (pos 1 ≡ pos 1) ↔ (
    (k : ℕ) × (has_id (λ (n : Node). n.id) k sample.nodes ≡ true)
    × (user_has_gost_node_access (derive_user_permissions 7 restricted) 7 k ≡ true))
unfolding derive_user_permissions get_user
derive_user_permissions_iff_example =
    derive_user_permissions_iff 7 restricted 6 {u = derived} refl (refl, tt) refl
