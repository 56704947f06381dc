-- ===== src/Users/Editing.antt =====
-- go-backend/service/user.go: CreateUser, UpdateUser, UpdatePassword and ResetFlow, as steps.
use flux_panel_plus.Prelude.{
  ℕ, ℤ, pos, eq_ℤ, Bool, not, ◌&&◌, Option, none, some, List, [], ◌∷◌, ◌++◌, ◌==◌, ltb, length,
  if◌then◌else◌,
}
use flux_panel_plus.Prelude.Text.{Text, is_empty, text_eq}
use flux_panel_plus.Prelude.Table.{find_where, count_where, update_where, delete_where, by_id}
use flux_panel_plus.Model.{User, UserTunnel, UserNode}
use flux_panel_plus.Model.Database.{Db}
use flux_panel_plus.Response.{
  refuse_if, or_error, user_not_found, tunnel_not_found, password_too_short, user_name_taken,
  admin_protected, wrong_password,
}
use flux_panel_plus.Gost.Commands.{World, Env}
use flux_panel_plus.Ports.Defs.{mem}
use flux_panel_plus.Permissions.Defs.{is_admin, get_user}
use flux_panel_plus.ResetFlow.Defs.{zero_user, zero_user_tunnel}
use flux_panel_plus.Topology.Nodes.{or_old}
use flux_panel_plus.Users.Access.{
  of_user, update_user_row, derive_user_permissions, pause_all_user_forwards,
  disable_all_user_xray_clients, disable_user_xray_clients_on_nodes,
}
use flux_panel_plus.Users.Permissions.{get_permission, disables}
use flux_panel_plus.Users.Requests.{
  Hashes, check_password, NodePermission, UserDto, UserUpdateDto, UpdatePasswordDto, new_user,
  add_user_nodes, all_on, with_user_nodes, permissions_or_nodes,
}
use flux_panel_plus.Actions.{Action, ◌>>=◌, ◌>>◌, query, change, perform}

abbrev pub is_short : Text → Bool
is_short pwd = ltb (length pwd) 8

-- The columns of the update; a password that is left empty is kept.
abbrev pub set_user : Hashes → ℤ → UserUpdateDto → User → User
set_user h now d u = record u {
  user = d.user;
  flow = d.flow;
  xray_flow = d.xray_flow;
  num = d.num;
  exp_time = d.exp_time;
  flow_reset_type = d.flow_reset_type;
  flow_reset_day = d.flow_reset_day;
  updated_time = now;
  status = or_old u.status d.status;
  pwd = if is_empty d.pwd then u.pwd else h.bcrypt d.pwd;
}

abbrev pub set_password : Hashes → ℤ → Text → UpdatePasswordDto → User → User
set_password h now name d u = record u {
  user = name;
  pwd = h.bcrypt d.new_password;
  updated_time = now;
}

abbrev pub xray_on : ℤ → Bool
xray_on flag = eq_ℤ flag (pos 1)

abbrev pub new_xray_nodes : List NodePermission → List ℕ
new_xray_nodes [] = []
new_xray_nodes (p ∷ ps) =
    if xray_on (or_old (pos 1) p.xray_enabled)
    then p.node_id ∷ new_xray_nodes ps
    else new_xray_nodes ps

-- The nodes of the old rows with Xray that the new permissions do not have.
abbrev pub lost_nodes : List UserNode → List ℕ → List ℕ
lost_nodes [] kept = []
lost_nodes (n ∷ ns) kept =
    if xray_on n.xray_enabled && not (mem n.node_id kept)
    then n.node_id ∷ lost_nodes ns kept
    else lost_nodes ns kept

abbrev pub replace_user_nodes : (ℕ → ℕ) → ℕ → List NodePermission → Db → Db
unfolding add_user_nodes
replace_user_nodes ids user_id ps =
    with_user_nodes (λ rows. add_user_nodes ids user_id 0 ps (delete_where (of_user user_id) rows))

module _ (env : Env) (h : Hashes) (same_name : Text → Text → Bool) where
  unfoldable pub create_user : ℕ → (ℕ → ℕ) → UserDto → Action {0} Unit
  unfolding add_user_nodes derive_user_permissions
  create_user id node_ids d = do
    query (λ db. refuse_if (is_short d.pwd) password_too_short)
    query (λ db.
        refuse_if (ltb 0 (count_where (λ (u : User). same_name u.user d.user) db.users))
          user_name_taken)
    change (λ db. record db { users = db.users ++ new_user h env.now id d ∷ [] })
    change (
        with_user_nodes
          (add_user_nodes node_ids id 0 (permissions_or_nodes d.node_permissions d.node_ids)))
    change (derive_user_permissions id)

  -- A user who was active and is disabled loses the forwards and the clients.
  unfoldable pub stop_disabled : UserUpdateDto → User → World → World
  unfolding pause_all_user_forwards disable_all_user_xray_clients
  stop_disabled d user w =
      if disables d.status && eq_ℤ user.status (pos 1)
      then disable_all_user_xray_clients env d.id (pause_all_user_forwards env d.id w)
      else w

  unfoldable pub disable_lost : ℕ → List ℕ → World → World
  unfolding disable_user_xray_clients_on_nodes
  disable_lost user_id [] w = w
  disable_lost user_id (n ∷ ns) w = disable_user_xray_clients_on_nodes env user_id (n ∷ ns) w

  unfoldable pub update_user_nodes :
      (ℕ → ℕ) → ℕ → Option (List NodePermission) → Option (List ℕ) → World → World
  unfolding replace_user_nodes disable_lost
  update_user_nodes ids user_id (some ps) node_ids w =
      let old = find_where (of_user user_id) w.db.user_nodes in
      disable_lost user_id (lost_nodes old (new_xray_nodes ps))
        (record w { db = replace_user_nodes ids user_id ps w.db })
  update_user_nodes ids user_id none (some node_ids) w = record w {
    db = replace_user_nodes ids user_id (all_on node_ids) w.db;
  }
  update_user_nodes ids user_id none none w = w

  unfoldable pub update_user : (ℕ → ℕ) → UserUpdateDto → Action {0} Unit
  unfolding get_user stop_disabled update_user_nodes derive_user_permissions
  update_user ids d = do
    user ← query (λ db. or_error (get_user db d.id) user_not_found)
    query (λ db. refuse_if (is_admin user.role_id) admin_protected)
    query (λ db.
        refuse_if
          (ltb 0
            (count_where (λ (u : User). same_name u.user d.user && not (u.id == d.id)) db.users))
          user_name_taken)
    query (λ db. refuse_if (not (is_empty d.pwd) && is_short d.pwd) password_too_short)
    perform (stop_disabled d user)
    change (update_user_row d.id (set_user h env.now d))
    perform (update_user_nodes ids d.id d.node_permissions d.node_ids)
    change (derive_user_permissions d.id)

  abbrev pub new_name : UpdatePasswordDto → User → Text
  new_name d user = if is_empty d.new_username then user.user else d.new_username

  unfoldable pub update_password : ℕ → UpdatePasswordDto → Action {0} Unit
  unfolding get_user check_password
  update_password user_id d = do
    user ← query (λ db. or_error (get_user db user_id) user_not_found)
    query (λ db. refuse_if (not (check_password h d.old_password user.pwd)) wrong_password)
    query (λ db. refuse_if (is_short d.new_password) password_too_short)
    query (λ db.
        refuse_if
          (not (is_empty d.new_username)
            && not (text_eq d.new_username user.user)
            && ltb 0 (
                count_where (λ (u : User). same_name u.user d.new_username && not (u.id == user.id))
                  db.users))
          user_name_taken)
    change (update_user_row user.id (set_password h env.now (new_name d user) d))

unfoldable pub reset_flow_of : ℕ → ℤ → Action {0} Unit
unfolding get_user get_permission
reset_flow_of id flow_type =
    if eq_ℤ flow_type (pos 1)
    then query (λ db. or_error (get_user db id) user_not_found)
      >>= (λ u. change (update_user_row id zero_user))
    else query (λ db. or_error (get_permission db id) tunnel_not_found) >>= (λ ut. change (λ db.
      record db {
        user_tunnels =
            update_where (by_id (λ (r : UserTunnel). r.id) id) zero_user_tunnel db.user_tunnels;
      }))
