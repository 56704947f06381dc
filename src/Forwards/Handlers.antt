-- ===== src/Forwards/Handlers.antt =====
-- go-backend/service/forward.go: PauseForward, ResumeForward, DeleteForward. An error of the database
-- itself is not modelled; a missing row is.
use flux_panel_plus.Prelude.{
  ℕ, ℤ, pos, eq_ℤ, Bool, true, false, not, ◌&&◌, Option, none, some, ◌==◌, if◌then◌else◌,
}
use flux_panel_plus.Model.{UserTunnel, Tunnel, Forward, Node}
use flux_panel_plus.Model.Database.{Db}
use flux_panel_plus.Response.{
  Result, ok, err, refuse_if, or_error, forward_not_found, tunnel_not_found, tunnel_disabled,
  no_tunnel_permission, tunnel_permission_disabled,
}
use flux_panel_plus.Gost.Names.{build_service_name}
use flux_panel_plus.Gost.Commands.{Env}
use flux_panel_plus.Pause.Defs.{active, paused, get_tunnel, get_user_tunnel}
use flux_panel_plus.Permissions.Defs.{is_admin, check_user_flow_limits}
use flux_panel_plus.Forwards.Steps.{
  validate_forward_exists, check_user_enabled, permission_for, get_required_nodes,
  set_forward_status, delete_forward_row, set_gost_services, delete_gost_services_with_ip,
}
use flux_panel_plus.Forwards.Routes.{
  delete_route_forward, pause_route_forward, resume_route_forward,
}
use flux_panel_plus.Actions.{Action, ◌>>=◌, ◌>>◌, return, query, change}

abbrev pub out_online : Env → Option Node → Bool
out_online env none = true
out_online env (some node) = env.is_node_online node.id

-- `checkUserFlowLimits` and the checks of the permission that follow it in `ResumeForward`.
abbrev pub enabled_permission : Option UserTunnel → Result (Option UserTunnel)
enabled_permission none = err no_tunnel_permission
enabled_permission (some ut) =
    if eq_ℤ ut.status (pos 1) then ok (some ut) else err tunnel_permission_disabled

unfoldable pub resume_permission : ℤ → Db → ℕ → ℤ → Forward → Tunnel → Result (Option UserTunnel)
unfolding check_user_flow_limits get_user_tunnel
resume_permission now db user_id role_id f tunnel =
    if is_admin role_id
    then ok (get_user_tunnel db f.user_id tunnel.id)
    else elim (check_user_flow_limits now db user_id tunnel) [
      | err e ↦ err e
      | ok u ↦ enabled_permission (get_user_tunnel db user_id tunnel.id)
    ]

module _ (env : Env) (id user_id : ℕ) (role_id : ℤ) where
  -- The commands of a pause or a resumption, and the new status.
  unfoldable pub set_tunnel_forward :
      Bool → ℤ → Forward → Tunnel → Option UserTunnel → Action {0} Unit
  unfolding get_required_nodes set_gost_services build_service_name
  set_tunnel_forward pausing status f tunnel ut = do
    (in_node, out_node) ← query (λ db. get_required_nodes db tunnel)
    set_gost_services env pausing tunnel in_node out_node (build_service_name f.id f.user_id ut)
        f.listen_ip
    change (set_forward_status env.now id status)

  unfoldable pub pause_tunnel_forward : Forward → Action {0} Unit
  unfolding get_tunnel permission_for set_tunnel_forward
  pause_tunnel_forward f = do
    tunnel ← query (λ db. or_error (get_tunnel db f.tunnel_id) tunnel_not_found)
    ut ← query (λ db. permission_for db user_id role_id f tunnel)
    set_tunnel_forward true paused f tunnel ut

  unfoldable pub pause_forward : Action {0} Unit
  unfolding check_user_enabled validate_forward_exists pause_tunnel_forward pause_route_forward
  pause_forward = do
    query (λ db. check_user_enabled db user_id role_id)
    f ← query (λ db. or_error (validate_forward_exists db id user_id role_id) forward_not_found)
    if f.route_id == 0 then pause_tunnel_forward f else pause_route_forward env f

  unfoldable pub resume_tunnel_forward : Forward → Action {0} Unit
  unfolding get_tunnel resume_permission set_tunnel_forward
  resume_tunnel_forward f = do
    tunnel ← query (λ db. or_error (get_tunnel db f.tunnel_id) tunnel_not_found)
    query (λ db. refuse_if (not (eq_ℤ tunnel.status (pos 1))) tunnel_disabled)
    ut ← query (λ db. resume_permission env.now db user_id role_id f tunnel)
    set_tunnel_forward false active f tunnel ut

  unfoldable pub resume_forward : Action {0} Unit
  unfolding check_user_enabled validate_forward_exists resume_tunnel_forward resume_route_forward
  resume_forward = do
    query (λ db. check_user_enabled db user_id role_id)
    f ← query (λ db. or_error (validate_forward_exists db id user_id role_id) forward_not_found)
    if f.route_id == 0 then resume_tunnel_forward f else resume_route_forward env f

  -- The services are deleted only where both nodes exist and are online.
  unfoldable pub cleanup_if_online :
      Forward → Tunnel → Option UserTunnel → Result (Node × Option Node) → Action {0} Unit
  unfolding delete_gost_services_with_ip build_service_name
  cleanup_if_online f tunnel ut (err e) = return tt
  cleanup_if_online f tunnel ut (ok (in_node, out_node)) =
      if env.is_node_online in_node.id && out_online env out_node
      then delete_gost_services_with_ip env tunnel in_node out_node
          (build_service_name f.id f.user_id ut) f.listen_ip
      else return tt

  unfoldable pub delete_tunnel_forward : Forward → Action {0} Unit
  unfolding get_tunnel permission_for get_required_nodes cleanup_if_online
  delete_tunnel_forward f = do
    tunnel ← query (λ db. or_error (get_tunnel db f.tunnel_id) tunnel_not_found)
    ut ← query (λ db. permission_for db user_id role_id f tunnel)
    nodes ← query (λ db. ok (get_required_nodes db tunnel))
    cleanup_if_online f tunnel ut nodes
    change (delete_forward_row id)

  unfoldable pub delete_forward : Action {0} Unit
  unfolding validate_forward_exists delete_tunnel_forward delete_route_forward
  delete_forward = do
    f ← query (λ db. or_error (validate_forward_exists db id user_id role_id) forward_not_found)
    if f.route_id == 0 then delete_tunnel_forward f else delete_route_forward env f
