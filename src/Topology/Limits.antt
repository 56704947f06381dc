-- ===== src/Topology/Limits.antt =====
-- go-backend/service/speed_limit.go: CreateSpeedLimit, UpdateSpeedLimit, DeleteSpeedLimit.
use flux_panel_plus.Prelude.{
  ℕ, ℤ, pos, negsuc, suc, Bool, Option, none, some, [], ◌∷◌, ◌++◌, ◌==◌, ltb,
}
use flux_panel_plus.Prelude.Text.{Text, decimal}
use flux_panel_plus.Prelude.Table.{first_where, count_where, update_where, delete_where, by_id}
use flux_panel_plus.Model.{SpeedLimit, UserTunnel, Tunnel, Node}
use flux_panel_plus.Model.Database.{Db}
use flux_panel_plus.Response.{
  ok, refuse_if, or_error, tunnel_not_found, speed_limit_not_found, speed_limit_in_use,
}
use flux_panel_plus.Gost.Commands.{
  World, Env, add_limiters_command, update_limiters_command, delete_limiters_command,
}
use flux_panel_plus.Ports.Defs.{get_node_by_id}
use flux_panel_plus.Pause.Defs.{get_tunnel}
use flux_panel_plus.Topology.Nodes.{kept_text, or_old}
use flux_panel_plus.Actions.{Action, ◌>>=◌, ◌>>◌, query, change, perform}

pub record SpeedLimitDto : Type 0 where
  pub name : Text
  pub speed : ℤ
  pub tunnel_id : ℕ

pub record SpeedLimitUpdateDto : Type 0 where
  pub id : ℕ
  pub name : Text
  pub speed : Option ℤ

-- `%d` of an integer.
abbrev pub decimal_ℤ : ℤ → Text
decimal_ℤ (pos n) = decimal n
decimal_ℤ (negsuc n) = b'-' ∷ decimal (suc n)

unfoldable pub get_speed_limit : Db → ℕ → Option SpeedLimit
get_speed_limit db id = first_where (by_id (λ (s : SpeedLimit). s.id) id) db.speed_limits

abbrev pub new_speed_limit : ℤ → ℕ → SpeedLimitDto → Tunnel → SpeedLimit
new_speed_limit now id d t = record {
  id = id;
  name = d.name;
  speed = d.speed;
  tunnel_id = d.tunnel_id;
  tunnel_name = t.name;
  created_time = now;
  updated_time = now;
  status = pos 1;
}

abbrev pub set_speed_limit : ℤ → SpeedLimitUpdateDto → SpeedLimit → SpeedLimit
set_speed_limit now d s = record s {
  name = kept_text s.name d.name;
  speed = or_old s.speed d.speed;
  updated_time = now;
}

abbrev pub limits_permission : ℕ → UserTunnel → Bool
limits_permission id ut = elim ut.speed_id [ none ↦ Bool.false | some s ↦ s == id ]

module _ (env : Env) where
  -- A command for the entry node of a tunnel, if the tunnel and the node exist. The answer is not
  -- looked at.
  abbrev on_entry_node : Option Node → (ℕ → World → Text × World) → World → World
  on_entry_node none c w = w
  on_entry_node (some node) c w = (c node.id w).1

  unfoldable pub on_tunnel_entry : ℕ → (ℕ → World → Text × World) → World → World
  unfolding get_tunnel get_node_by_id
  on_tunnel_entry tunnel_id c w = elim (get_tunnel w.db tunnel_id) [
    | none ↦ w
    | some t ↦ on_entry_node (get_node_by_id w.db t.in_node_id) c w
  ]

  unfoldable pub create_speed_limit : ℕ → SpeedLimitDto → Action SpeedLimit
  unfolding get_tunnel on_tunnel_entry add_limiters_command
  create_speed_limit id d = do
    t ← query (λ db. or_error (get_tunnel db d.tunnel_id) tunnel_not_found)
    let s = new_speed_limit env.now id d t
    change (λ db. record db { speed_limits = db.speed_limits ++ s ∷ [] })
    perform (
        on_tunnel_entry d.tunnel_id
          (λ node_id. add_limiters_command env node_id id (decimal_ℤ d.speed)))
    λ w. (ok s, w)

  unfoldable pub update_speed_limit : SpeedLimitUpdateDto → Action {0} Unit
  unfolding get_speed_limit on_tunnel_entry update_limiters_command
  update_speed_limit d = do
    old ← query (λ db. or_error (get_speed_limit db d.id) speed_limit_not_found)
    let s = set_speed_limit env.now d old
    change (λ db. record db {
      speed_limits = update_where (by_id (λ (r : SpeedLimit). r.id) d.id) (λ r. s) db.speed_limits;
    })
    perform (
        on_tunnel_entry s.tunnel_id
          (λ node_id. update_limiters_command env node_id s.id (decimal_ℤ s.speed)))

  unfoldable pub delete_speed_limit : ℕ → Action {0} Unit
  unfolding get_speed_limit on_tunnel_entry delete_limiters_command
  delete_speed_limit id = do
    s ← query (λ db. or_error (get_speed_limit db id) speed_limit_not_found)
    query (λ db.
        refuse_if (ltb 0 (count_where (limits_permission id) db.user_tunnels)) speed_limit_in_use)
    perform (on_tunnel_entry s.tunnel_id (λ node_id. delete_limiters_command env node_id s.id))
    change (λ db. record db {
      speed_limits = delete_where (by_id (λ (r : SpeedLimit). r.id) id) db.speed_limits;
    })
