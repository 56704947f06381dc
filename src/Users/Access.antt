-- ===== src/Users/Access.antt =====
-- go-backend/service/user.go: UserHasNodeAccess, deriveUserPermissions, pauseAllUserForwards,
-- disableAllUserXrayClients and disableUserXrayClientsOnNodes.
use flux_panel_plus.Prelude.{
  ℕ, ℤ, pos, eq_ℤ, Bool, ◌&&◌, ◌||◌, none, some, List, ◌==◌, ltb, if◌then◌else◌,
}
use flux_panel_plus.Prelude.Table.{find_where, count_where, update_where, by_id, for_each}
use flux_panel_plus.Model.{User, UserNode, Forward, XrayClient}
use flux_panel_plus.Model.Database.{Db}
use flux_panel_plus.Gost.Names.{service_name, user_tunnel_id}
use flux_panel_plus.Gost.Commands.{World, Env, xray_remove_client}
use flux_panel_plus.Ports.Defs.{get_node_by_id, mem}
use flux_panel_plus.Pause.Defs.{paused, get_tunnel, get_user_tunnel, update_forward_status}
use flux_panel_plus.ResetFlow.Defs.{pause_single_on_nodes}
use flux_panel_plus.Xray.Defs.{get_inbound, disable_xray_client, is_enabled_of, remove_client_of}

abbrev pub of_user : ℕ → UserNode → Bool
of_user user_id n = n.user_id == user_id

-- A user without any row of their own may use every node.
unfoldable pub user_has_node_access : Db → ℕ → ℕ → Bool
user_has_node_access db user_id node_id =
    (count_where (of_user user_id) db.user_nodes == 0)
    || ltb 0 (count_where (λ n. (n.user_id == user_id) && (n.node_id == node_id)) db.user_nodes)

-- 1 if some row of the user has the flag.
abbrev pub flag_of : (UserNode → ℤ) → ℕ → List UserNode → ℤ
flag_of flag user_id rows =
    if ltb 0 (count_where (λ n. (n.user_id == user_id) && eq_ℤ (flag n) (pos 1)) rows)
    then pos 1
    else pos 0

abbrev pub set_enabled : ℤ → ℤ → User → User
set_enabled gost xray u = record u { gost_enabled = gost; xray_enabled = xray }

abbrev pub update_user_row : ℕ → (User → User) → Db → Db
update_user_row id g db = record db {
  users = update_where (by_id (λ (u : User). u.id) id) g db.users;
}

unfoldable pub derive_user_permissions : ℕ → Db → Db
derive_user_permissions user_id db =
    if count_where (of_user user_id) db.user_nodes == 0
    then update_user_row user_id (set_enabled (pos 1) (pos 1)) db
    else update_user_row user_id
        (set_enabled (flag_of (λ n. n.gost_enabled) user_id db.user_nodes)
          (flag_of (λ n. n.xray_enabled) user_id db.user_nodes))
        db

module _ (env : Env) (user_id : ℕ) where
  -- The loop's body, from the tunnel's query on.
  unfoldable pub pause_user_forward : Forward → World → World
  unfolding get_tunnel get_node_by_id get_user_tunnel pause_single_on_nodes update_forward_status
  pause_user_forward f w = elim (get_tunnel w.db f.tunnel_id) [
    | none ↦ w
    | some tunnel ↦ elim (get_node_by_id w.db tunnel.in_node_id) [
      | none ↦ w
      | some in_node ↦
          let ut = get_user_tunnel w.db user_id tunnel.id in
          let name = service_name f.id user_id (user_tunnel_id ut) in
          update_forward_status f.id paused (pause_single_on_nodes env f tunnel in_node name w)
    ]
  ]

  unfoldable pub pause_all_user_forwards : World → World
  unfolding pause_user_forward
  pause_all_user_forwards w =
      for_each pause_user_forward
        (find_where (λ (f : Forward). (f.user_id == user_id) && eq_ℤ f.status (pos 1))
          w.db.forwards)
        w

  -- The client is taken off its node first, and then disabled.
  unfoldable pub remove_and_disable : XrayClient → World → World
  unfolding remove_client_of
  remove_and_disable c w = disable_xray_client c.id (remove_client_of env c w)

  unfoldable pub disable_all_user_xray_clients : World → World
  unfolding remove_and_disable
  disable_all_user_xray_clients w =
      for_each remove_and_disable (find_where (is_enabled_of user_id) w.db.xray_clients) w

  unfoldable pub disable_on_nodes : List ℕ → XrayClient → World → World
  unfolding get_inbound xray_remove_client
  disable_on_nodes node_ids c w = elim (get_inbound w.db c.inbound_id) [
    | none ↦ w
    | some inbound ↦
        if mem inbound.node_id node_ids
        then disable_xray_client c.id
            (xray_remove_client env inbound.node_id inbound.tag c.email w).1
        else w
  ]

  unfoldable pub disable_user_xray_clients_on_nodes : List ℕ → World → World
  unfolding disable_on_nodes
  disable_user_xray_clients_on_nodes node_ids w =
      for_each (disable_on_nodes node_ids) (find_where (is_enabled_of user_id) w.db.xray_clients) w
