-- ===== src/Users/Deletion.antt =====
-- go-backend/service/user.go: DeleteUser and deleteGostServicesForForward.
use flux_panel_plus.Prelude.{ℕ, eq_ℤ, Option, none, some, ◌==◌, if◌then◌else◌}
use flux_panel_plus.Prelude.Text.{Text}
use flux_panel_plus.Prelude.Table.{find_where, delete_where, by_id, for_each}
use flux_panel_plus.Model.{User, Forward, Tunnel, Node, XrayClient}
use flux_panel_plus.Model.Database.{Db}
use flux_panel_plus.Response.{refuse_if, or_error, user_not_found, admin_protected}
use flux_panel_plus.Gost.Names.{service_name, user_tunnel_id}
use flux_panel_plus.Gost.Commands.{
  World, Env, delete_service_command, delete_service_multi_ip, delete_chains_command,
  delete_remote_service,
}
use flux_panel_plus.Ports.Defs.{get_node_by_id, tunnel_forward}
use flux_panel_plus.Pause.Defs.{get_tunnel, get_user_tunnel, is_multi_ip}
use flux_panel_plus.Permissions.Defs.{is_admin, get_user}
use flux_panel_plus.Xray.Defs.{remove_client_of}
use flux_panel_plus.Forwards.Steps.{delete_forward_row}
use flux_panel_plus.Actions.{Action, ◌>>=◌, ◌>>◌, query, change, perform}

-- What the last statements delete.
abbrev pub delete_user_rows : ℕ → Db → Db
delete_user_rows id db = record db {
  xray_clients = delete_where (λ (c : XrayClient). c.user_id == id) db.xray_clients;
  user_tunnels = delete_where (λ ut. ut.user_id == id) db.user_tunnels;
  user_nodes = delete_where (λ n. n.user_id == id) db.user_nodes;
  statistics_flows = delete_where (λ s. s.user_id == id) db.statistics_flows;
  statistics_user_flows = delete_where (λ s. s.user_id == id) db.statistics_user_flows;
  users = delete_where (by_id (λ (u : User). u.id) id) db.users;
}

module _ (env : Env) where
  unfoldable pub delete_main_of : Forward → Node → Text → World → World
  unfolding delete_service_command delete_service_multi_ip
  delete_main_of f in_node name w =
      if is_multi_ip f.listen_ip
      then (delete_service_multi_ip env in_node.id name f.listen_ip w).1
      else (delete_service_command env in_node.id name w).1

  unfoldable pub delete_far_of : Tunnel → Node → Option Node → Text → World → World
  unfolding delete_chains_command delete_remote_service
  delete_far_of tunnel in_node none name w = w
  delete_far_of tunnel in_node (some out) name w =
      if eq_ℤ tunnel.type tunnel_forward
      then (delete_remote_service env out.id name (delete_chains_command env in_node.id name w).1).1
      else w

  -- The forward's services on a tunnel whose entry node exists.
  unfoldable pub delete_gost_services_for_forward : ℕ → Forward → World → World
  unfolding get_tunnel get_node_by_id get_user_tunnel delete_main_of delete_far_of
  delete_gost_services_for_forward user_id f w = elim (get_tunnel w.db f.tunnel_id) [
    | none ↦ w
    | some tunnel ↦ elim (get_node_by_id w.db tunnel.in_node_id) [
      | none ↦ w
      | some in_node ↦
          let ut = get_user_tunnel w.db user_id tunnel.id in
          let name = service_name f.id user_id (user_tunnel_id ut) in
          delete_far_of tunnel in_node (get_node_by_id w.db tunnel.out_node_id) name
            (delete_main_of f in_node name w)
    ]
  ]

  -- The loop's body.
  unfoldable pub delete_user_forward : ℕ → Forward → World → World
  unfolding delete_gost_services_for_forward
  delete_user_forward user_id f w =
      let w' = delete_gost_services_for_forward user_id f w in
      record w' { db = delete_forward_row f.id w'.db }

  unfoldable pub delete_user_forwards : ℕ → World → World
  unfolding delete_user_forward
  delete_user_forwards user_id w =
      for_each (delete_user_forward user_id)
        (find_where (λ (f : Forward). f.user_id == user_id) w.db.forwards) w

  unfoldable pub remove_user_clients : ℕ → World → World
  unfolding remove_client_of
  remove_user_clients user_id w =
      for_each (remove_client_of env)
        (find_where (λ (c : XrayClient). c.user_id == user_id) w.db.xray_clients) w

  unfoldable pub delete_user : ℕ → Action {0} Unit
  unfolding get_user delete_user_forwards remove_user_clients
  delete_user id = do
    user ← query (λ db. or_error (get_user db id) user_not_found)
    query (λ db. refuse_if (is_admin user.role_id) admin_protected)
    perform (delete_user_forwards id)
    perform (remove_user_clients id)
    change (delete_user_rows id)
