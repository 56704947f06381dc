-- ===== src/Users/Changes.antt =====
-- go-backend/service/user_tunnel.go: UpdateUserTunnel, pauseForwardForDisable and
-- updateForwardWithNewSpeed.
use flux_panel_plus.Prelude.{
  ℕ, ℤ, pos, eq_ℤ, not, ◌&&◌, Option, none, some, [], ◌==◌, if◌then◌else◌,
}
use flux_panel_plus.Prelude.Text.{Text}
use flux_panel_plus.Prelude.Table.{find_where, update_where, by_id, for_each}
use flux_panel_plus.Model.{UserTunnel, Tunnel, Forward, Node}
use flux_panel_plus.Response.{or_error, permission_not_found}
use flux_panel_plus.Gost.Names.{service_name}
use flux_panel_plus.Gost.Commands.{World, Env, update_service_command}
use flux_panel_plus.Ports.Defs.{get_node_by_id, tunnel_forward}
use flux_panel_plus.Pause.Defs.{paused, get_tunnel, update_forward_status}
use flux_panel_plus.ResetFlow.Defs.{pause_single_on_nodes}
use flux_panel_plus.Create.Handler.{listening_on}
use flux_panel_plus.Users.Permissions.{
  UserTunnelUpdateDto, forwards_of, get_permission, set_permission, speed_changed, disables,
  at_node, at_tunnel, ensure_limiter,
}
use flux_panel_plus.Actions.{Action, ◌>>=◌, ◌>>◌, query, change, perform}

module _ (env : Env) where
  unfoldable pub pause_forward_for_disable : Tunnel → UserTunnel → Forward → World → World
  unfolding get_node_by_id pause_single_on_nodes update_forward_status
  pause_forward_for_disable tunnel ut f w =
      at_node (get_node_by_id w.db tunnel.in_node_id)
        (λ in_node v.
          update_forward_status f.id paused
            (pause_single_on_nodes env f tunnel in_node (service_name f.id f.user_id ut.id) v))
        w

  -- The interface is the forward's own unless the tunnel is between nodes.
  abbrev own_interface : Tunnel → Forward → Text
  own_interface tunnel f = if not (eq_ℤ tunnel.type tunnel_forward) then f.interface_name else []

  unfoldable pub update_forward_with_new_speed : Tunnel → UserTunnel → Forward → World → World
  unfolding get_node_by_id update_service_command
  update_forward_with_new_speed tunnel ut f w =
      let t = listening_on f.listen_ip tunnel in
      at_node (get_node_by_id w.db t.in_node_id)
        (λ in_node v.
          (update_service_command env in_node.id (service_name f.id f.user_id ut.id) f.in_port
            ut.speed_id f.remote_addr t.type t f.strategy (own_interface t f) v).1)
        w

  -- The new speed, where it differs, on the entry node of a tunnel that exists.
  unfoldable pub change_speed : UserTunnel → ℕ → Tunnel → Node → World → World
  unfolding ensure_limiter update_forward_with_new_speed
  change_speed ut s tunnel in_node w =
      if speed_changed ut.speed_id s
      then for_each (update_forward_with_new_speed tunnel (record ut { speed_id = some s }))
          (forwards_of ut w.db) (ensure_limiter env s in_node w)
      else w

  unfoldable pub apply_speed : UserTunnel → Option ℕ → World → World
  unfolding get_tunnel get_node_by_id change_speed
  apply_speed ut none w = w
  apply_speed ut (some s) w =
      at_tunnel (get_tunnel w.db ut.tunnel_id)
        (λ tunnel v. at_node (get_node_by_id v.db tunnel.in_node_id) (change_speed ut s tunnel) v) w

  unfoldable pub pause_disabled : UserTunnel → Option ℤ → World → World
  unfolding get_tunnel pause_forward_for_disable
  pause_disabled ut status w =
      if disables status
      then at_tunnel (get_tunnel w.db ut.tunnel_id)
          (λ tunnel v.
            for_each (pause_forward_for_disable tunnel ut)
              (find_where
                (λ (f : Forward).
                  (f.user_id == ut.user_id)
                  && (f.tunnel_id == ut.tunnel_id)
                  && eq_ℤ f.status (pos 1))
                w.db.forwards)
              v)
          w
      else w

  unfoldable pub update_user_tunnel : UserTunnelUpdateDto → Action {0} Unit
  unfolding get_permission apply_speed pause_disabled
  update_user_tunnel d = do
    ut ← query (λ db. or_error (get_permission db d.id) permission_not_found)
    perform (apply_speed ut d.speed_id)
    perform (pause_disabled ut d.status)
    change (λ db. record db {
      user_tunnels =
          update_where (by_id (λ (r : UserTunnel). r.id) ut.id) (set_permission d) db.user_tunnels;
    })
