-- ===== src/Update/Services.antt =====
-- go-backend/service/forward.go: syncGostServices, updateGostServices, deleteOldGostServices.
use flux_panel_plus.Prelude.{ℕ, eq_ℤ, Option, none, some, [], if◌then◌else◌}
use flux_panel_plus.Prelude.Text.{Text}
use flux_panel_plus.Model.{Tunnel, Forward, Node}
use flux_panel_plus.Response.{Result, ok, err}
use flux_panel_plus.Gost.Names.{build_service_name}
use flux_panel_plus.Gost.Commands.{
  World, Env, is_not_found, update_chains_command, add_chains_command, update_remote_service,
  add_remote_service, update_service_command, add_service_command, delete_service_command,
  delete_service_multi_ip, delete_chains_command, delete_remote_service,
}
use flux_panel_plus.Ports.Defs.{get_node_by_id, tunnel_forward}
use flux_panel_plus.Pause.Defs.{is_multi_ip, get_user_tunnel}
use flux_panel_plus.Forwards.Steps.{get_required_nodes}
use flux_panel_plus.Create.Handler.{mark_failed}
use flux_panel_plus.Address.Defs.{format_remote_addr}
use flux_panel_plus.Actions.{Action, ◌>>◌, return, answer_ok, expect_ok}

-- An update, and the addition where the node does not know the object.
abbrev pub update_or_add : (World → Text × World) → (World → Text × World) → Action {0} Unit
update_or_add update add w =
    let (msg, w') = update w in if is_not_found msg then expect_ok add w' else (answer_ok msg, w')

module _ (env : Env) (f : Forward) (tunnel : Tunnel) (limiter : Option ℕ) (name : Text) where
  unfoldable pub sync_chain : Node → Action {0} Unit
  unfolding update_chains_command add_chains_command format_remote_addr
  sync_chain in_node =
      let addr = format_remote_addr tunnel.out_ip f.out_port in
      update_or_add
        (update_chains_command env in_node.id name addr tunnel.protocol tunnel.interface_name)
        (add_chains_command env in_node.id name addr tunnel.protocol tunnel.interface_name)

  -- A tunnel forward has an exit node, as its nodes were required.
  unfoldable pub sync_remote : Option Node → Action {0} Unit
  unfolding update_remote_service add_remote_service
  sync_remote none = return tt
  sync_remote (some out_node) =
      update_or_add
        (update_remote_service env out_node.id name f.out_port f.remote_addr tunnel.protocol
          f.strategy f.interface_name)
        (add_remote_service env out_node.id name f.out_port f.remote_addr tunnel.protocol f.strategy
          f.interface_name)

  abbrev pub main_interface : Text
  main_interface = if eq_ℤ tunnel.type tunnel_forward then [] else f.interface_name

  unfoldable pub sync_main : Node → Action {0} Unit
  unfolding update_service_command add_service_command
  sync_main in_node =
      update_or_add
        (update_service_command env in_node.id name f.in_port limiter f.remote_addr tunnel.type
          tunnel f.strategy main_interface)
        (add_service_command env in_node.id name f.in_port limiter f.remote_addr tunnel.type tunnel
          f.strategy main_interface)

  unfoldable pub sync_gost_services : Node → Option Node → Action {0} Unit
  unfolding sync_chain sync_remote sync_main
  sync_gost_services in_node out_node =
      (if eq_ℤ tunnel.type tunnel_forward
        then sync_chain in_node >> sync_remote out_node
        else return tt)
      >> sync_main in_node

  unfoldable pub update_gost_services : Node → Option Node → Action {0} Unit
  unfolding sync_gost_services mark_failed
  update_gost_services in_node out_node w = mark_failed f (sync_gost_services in_node out_node w)

module _ (env : Env) (f : Forward) (tunnel : Tunnel) where
  unfoldable pub delete_old_main : Text → Node → World → World
  unfolding delete_service_command delete_service_multi_ip
  delete_old_main name in_node w =
      if is_multi_ip f.listen_ip
      then (delete_service_multi_ip env in_node.id name f.listen_ip w).1
      else (delete_service_command env in_node.id name w).1

  unfoldable pub delete_old_remote : Text → Option Node → World → World
  unfolding delete_remote_service
  delete_old_remote name none w = w
  delete_old_remote name (some out_node) w = (delete_remote_service env out_node.id name w).1

  unfoldable pub delete_old_services : Text → Result (Node × Option Node) → World → World
  unfolding delete_old_main delete_old_remote delete_chains_command get_node_by_id
  delete_old_services name (ok (in_node, out_node)) w =
      let w' = delete_old_main name in_node w in
      if eq_ℤ tunnel.type tunnel_forward
      then delete_old_remote name out_node (delete_chains_command env in_node.id name w').1
      else w'
  delete_old_services name (err e) w =
      if eq_ℤ tunnel.type tunnel_forward
      then delete_old_remote name (get_node_by_id w.db tunnel.out_node_id) w
      else w

  -- What a node answers is only written to the log.
  unfoldable pub delete_old_gost_services : World → World
  unfolding delete_old_services get_user_tunnel build_service_name get_required_nodes
  delete_old_gost_services w =
      delete_old_services
        (build_service_name f.id f.user_id (get_user_tunnel w.db f.user_id tunnel.id))
        (get_required_nodes w.db tunnel) w
