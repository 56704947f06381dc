-- ===== src/Users/Permissions.antt =====
-- go-backend/service/user_tunnel.go: AssignUserTunnel, RemoveUserTunnel, UpdateUserTunnel and what
-- they call.
use flux_panel_plus.Prelude.{
  ℕ, ℤ, pos, eq_ℤ, Bool, true, not, ◌&&◌, Option, none, some, List, [], ◌∷◌, ◌++◌, ◌==◌, ltb,
  if◌then◌else◌,
}
use flux_panel_plus.Prelude.Table.{
  first_where, find_where, count_where, delete_where, by_id, for_each,
}
use flux_panel_plus.Model.{UserTunnel, Tunnel, Forward, Node, SpeedLimit}
use flux_panel_plus.Model.Database.{Db}
use flux_panel_plus.Response.{
  ok, refuse_if, or_error, user_not_found, tunnel_not_found, already_assigned, permission_not_found,
}
use flux_panel_plus.Gost.Names.{service_name}
use flux_panel_plus.Gost.Commands.{
  World, Env, add_limiters_command, delete_service_command, delete_service_multi_ip,
  delete_chains_command, delete_remote_service,
}
use flux_panel_plus.Ports.Defs.{get_node_by_id, tunnel_forward}
use flux_panel_plus.Pause.Defs.{get_tunnel, is_multi_ip}
use flux_panel_plus.Permissions.Defs.{get_user}
use flux_panel_plus.Forwards.Steps.{delete_forward_row}
use flux_panel_plus.Topology.Nodes.{or_old}
use flux_panel_plus.Topology.Limits.{get_speed_limit, decimal_ℤ}
use flux_panel_plus.Actions.{Action, ◌>>=◌, ◌>>◌, query, change, perform}

pub record UserTunnelDto : Type 0 where
  pub user_id : ℕ
  pub tunnel_id : ℕ
  pub num : ℤ
  pub flow : ℤ
  pub flow_reset_type : ℤ
  pub flow_reset_day : ℤ
  pub exp_time : ℤ
  pub speed_id : Option ℕ

pub record UserTunnelUpdateDto : Type 0 where
  pub id : ℕ
  pub num : Option ℤ
  pub flow : Option ℤ
  pub flow_reset_type : Option ℤ
  pub flow_reset_day : Option ℤ
  pub exp_time : Option ℤ
  pub speed_id : Option ℕ
  pub status : Option ℤ

abbrev pub new_user_tunnel : ℕ → UserTunnelDto → UserTunnel
new_user_tunnel id d = record {
  id = id;
  user_id = d.user_id;
  tunnel_id = d.tunnel_id;
  speed_id = d.speed_id;
  num = d.num;
  flow = d.flow;
  in_flow = pos 0;
  out_flow = pos 0;
  flow_reset_time = pos 0;
  flow_reset_type = d.flow_reset_type;
  flow_reset_day = d.flow_reset_day;
  exp_time = d.exp_time;
  status = pos 1;
}

abbrev pub is_permission : ℕ → ℕ → UserTunnel → Bool
is_permission user_id tunnel_id ut = (ut.user_id == user_id) && (ut.tunnel_id == tunnel_id)

abbrev pub forwards_of : UserTunnel → Db → List Forward
forwards_of ut db =
    find_where (λ (f : Forward). (f.user_id == ut.user_id) && (f.tunnel_id == ut.tunnel_id))
      db.forwards

unfoldable pub get_permission : Db → ℕ → Option UserTunnel
get_permission db id = first_where (by_id (λ (ut : UserTunnel). ut.id) id) db.user_tunnels

-- The zero value that a query without a row leaves.
abbrev pub tunnel_or_zero : Option Tunnel → Tunnel
tunnel_or_zero (some t) = t
tunnel_or_zero none = record {
  id = 0;
  name = [];
  traffic_ratio = 0;
  in_node_id = 0;
  in_ip = [];
  out_node_id = 0;
  out_ip = [];
  type = pos 0;
  protocol = [];
  flow = pos 0;
  tcp_listen_addr = [];
  udp_listen_addr = [];
  interface_name = [];
  created_time = pos 0;
  updated_time = pos 0;
  status = pos 0;
  inx = pos 0;
}

-- The columns of the update.
abbrev pub set_permission : UserTunnelUpdateDto → UserTunnel → UserTunnel
set_permission d ut = record ut {
  num = or_old ut.num d.num;
  flow = or_old ut.flow d.flow;
  flow_reset_type = or_old ut.flow_reset_type d.flow_reset_type;
  flow_reset_day = or_old ut.flow_reset_day d.flow_reset_day;
  exp_time = or_old ut.exp_time d.exp_time;
  status = or_old ut.status d.status;
  speed_id = elim d.speed_id [ none ↦ ut.speed_id | some s ↦ some s ];
}

-- `oldSpeedId == nil || *oldSpeedId != *d.SpeedId`
abbrev pub speed_changed : Option ℕ → ℕ → Bool
speed_changed none s = true
speed_changed (some old) s = not (old == s)

abbrev pub disables : Option ℤ → Bool
disables none = Bool.false
disables (some status) = eq_ℤ status (pos 0)

-- What is done on a row that may be missing.
abbrev pub at_node : Option Node → (Node → World → World) → World → World
at_node none c w = w
at_node (some node) c w = c node w

abbrev pub at_tunnel : Option Tunnel → (Tunnel → World → World) → World → World
at_tunnel none c w = w
at_tunnel (some tunnel) c w = c tunnel w

abbrev pub delete_permission_row : ℕ → Db → Db
delete_permission_row id db = record db {
  user_tunnels = delete_where (by_id (λ (ut : UserTunnel). ut.id) id) db.user_tunnels;
}

module _ (env : Env) where
  abbrev add_limit : ℕ → ℕ → Option SpeedLimit → World → World
  add_limit node_id s none w = w
  add_limit node_id s (some limit) w =
      (add_limiters_command env node_id s (decimal_ℤ limit.speed) w).1

  -- The limiter of a speed, on the node, unless the speed is 0 or has no row.
  unfoldable pub ensure_limiter : ℕ → Node → World → World
  unfolding get_speed_limit add_limiters_command
  ensure_limiter s node w = if s == 0 then w else add_limit node.id s (get_speed_limit w.db s) w

  unfoldable pub limit_assigned : Tunnel → Option ℕ → World → World
  unfolding get_node_by_id ensure_limiter
  limit_assigned tunnel none w = w
  limit_assigned tunnel (some s) w =
      at_node (get_node_by_id w.db tunnel.in_node_id) (ensure_limiter s) w

  unfoldable pub assign_user_tunnel : ℕ → UserTunnelDto → Action UserTunnel
  unfolding get_user get_tunnel limit_assigned
  assign_user_tunnel id d = do
    query (λ db. or_error (get_user db d.user_id) user_not_found)
    tunnel ← query (λ db. or_error (get_tunnel db d.tunnel_id) tunnel_not_found)
    query (λ db.
        refuse_if (ltb 0 (count_where (is_permission d.user_id d.tunnel_id) db.user_tunnels))
          already_assigned)
    let ut = new_user_tunnel id d
    perform (limit_assigned tunnel d.speed_id)
    change (λ db. record db { user_tunnels = db.user_tunnels ++ ut ∷ [] })
    λ w. (ok ut, w)

  -- The services of a forward under a permission's name, from a node that exists.
  unfoldable pub remove_services : UserTunnel → Tunnel → Forward → Node → World → World
  unfolding get_node_by_id delete_service_command delete_service_multi_ip delete_chains_command
      delete_remote_service
  remove_services ut tunnel f in_node w =
      let name = service_name f.id f.user_id ut.id in
      let w' =
        if is_multi_ip f.listen_ip
        then (delete_service_multi_ip env in_node.id name f.listen_ip w).1
        else (delete_service_command env in_node.id name w).1 in
      if eq_ℤ tunnel.type tunnel_forward
      then at_node (get_node_by_id w.db tunnel.out_node_id)
          (λ out v. (delete_remote_service env out.id name v).1)
          (delete_chains_command env in_node.id name w').1
      else w'

  -- The loop's body.
  unfoldable pub remove_forward : UserTunnel → Tunnel → Forward → World → World
  unfolding get_node_by_id remove_services
  remove_forward ut tunnel f w =
      let w' = at_node (get_node_by_id w.db tunnel.in_node_id) (remove_services ut tunnel f) w in
      record w' { db = delete_forward_row f.id w'.db }

  unfoldable pub remove_forwards : UserTunnel → World → World
  unfolding get_tunnel remove_forward
  remove_forwards ut w =
      for_each (remove_forward ut (tunnel_or_zero (get_tunnel w.db ut.tunnel_id)))
        (forwards_of ut w.db) w

  unfoldable pub remove_user_tunnel : ℕ → Action {0} Unit
  unfolding get_permission remove_forwards
  remove_user_tunnel id = do
    ut ← query (λ db. or_error (get_permission db id) permission_not_found)
    perform (remove_forwards ut)
    change (delete_permission_row ut.id)
