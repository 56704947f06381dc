-- ===== src/ResetFlow/Defs.antt =====
-- go-backend/task/reset_flow.go: resetFlow and its helpers.
use flux_panel_plus.Prelude.{
  ℕ, ℤ, pos, eq_ℤ, ltb_ℤ, leb_ℤ, ◌%◌, Bool, not, ◌&&◌, ◌||◌, none, some, List, ◌++◌, ◌==◌,
  if◌then◌else◌,
}
use flux_panel_plus.Prelude.Text.{Text}
use flux_panel_plus.Prelude.Table.{find_where, update_where, by_id, for_each}
use flux_panel_plus.Model.{User, UserTunnel, Tunnel, Forward, Node}
use flux_panel_plus.Gost.Names.{service_name, user_tunnel_id}
use flux_panel_plus.Gost.Commands.{
  World, Env, pause_service_command, pause_service_multi_ip, pause_remote_service,
}
use flux_panel_plus.Ports.Defs.{get_node_by_id, tunnel_forward}
use flux_panel_plus.Pause.Defs.{
  paused, get_tunnel, get_user_tunnel, update_forward_status, is_multi_ip,
}

-- What the task reads of `time.Now()`; the day of the week counts from 0, a Sunday.
pub record Today : Type 0 where
  pub year : ℕ
  pub month : ℕ
  pub day_of_month : ℕ
  pub day_of_week : ℕ

abbrev pub is_leap_year : ℕ → Bool
is_leap_year y = (y % 4 == 0) && (not (y % 100 == 0) || (y % 400 == 0))

-- `time.Date(year, month + 1, 0, …).Day()`: the last day of the month.
unfoldable pub days_in_current_month : ℕ → ℕ → ℕ
days_in_current_month year month =
    if month == 2
    then if is_leap_year year then 29 else 28
    else if (month == 4) || (month == 6) || (month == 9) || (month == 11)
    then 30
    else 31

-- `flow_reset_day = ? OR (flow_reset_day > ? AND ? = ?)`
unfoldable pub is_reset_day : ℤ → ℕ → ℕ → Bool
is_reset_day reset_day day days_in_month =
    eq_ℤ reset_day (pos day) || (ltb_ℤ (pos days_in_month) reset_day && (day == days_in_month))

-- `flow_reset_type = 1 AND status = 1 AND (…)`
abbrev pub is_due_monthly : Today → (reset_type status reset_day : ℤ) → Bool
is_due_monthly t reset_type status reset_day =
    eq_ℤ reset_type (pos 1)
    && eq_ℤ status (pos 1)
    && is_reset_day reset_day t.day_of_month (days_in_current_month t.year t.month)

-- `flow_reset_type = 2 AND status = 1 AND flow_reset_day = ?`
abbrev pub is_due_weekly : Today → (reset_type status reset_day : ℤ) → Bool
is_due_weekly t reset_type status reset_day =
    eq_ℤ reset_type (pos 2) && eq_ℤ status (pos 1) && eq_ℤ reset_day (pos t.day_of_week)

abbrev pub user_due_monthly : Today → User → Bool
user_due_monthly t u = is_due_monthly t u.flow_reset_type u.status u.flow_reset_day

abbrev pub user_due_weekly : Today → User → Bool
user_due_weekly t u = is_due_weekly t u.flow_reset_type u.status u.flow_reset_day

abbrev pub permission_due_monthly : Today → UserTunnel → Bool
permission_due_monthly t u = is_due_monthly t u.flow_reset_type u.status u.flow_reset_day

abbrev pub permission_due_weekly : Today → UserTunnel → Bool
permission_due_weekly t u = is_due_weekly t u.flow_reset_type u.status u.flow_reset_day

abbrev pub zero_user : User → User
zero_user u = record u {
  in_flow = pos 0;
  out_flow = pos 0;
  xray_in_flow = pos 0;
  xray_out_flow = pos 0;
}

abbrev pub zero_user_tunnel : UserTunnel → UserTunnel
zero_user_tunnel ut = record ut { in_flow = pos 0; out_flow = pos 0 }

abbrev pub with_users : World → List User → World
with_users w us = record w { db = record (w.db) { users = us } }

abbrev pub with_user_tunnels : World → List UserTunnel → World
with_user_tunnels w uts = record w { db = record (w.db) { user_tunnels = uts } }

unfoldable pub reset_users : Today → World → World
reset_users t w =
    for_each
      (λ (u : User) (v : World).
        with_users v (update_where (by_id (λ r. r.id) u.id) zero_user v.db.users))
      (find_where (user_due_monthly t) w.db.users ++ find_where (user_due_weekly t) w.db.users) w

unfoldable pub reset_user_tunnels : Today → World → World
reset_user_tunnels t w =
    for_each
      (λ (u : UserTunnel) (v : World).
        with_user_tunnels v
          (update_where (by_id (λ r. r.id) u.id) zero_user_tunnel v.db.user_tunnels))
      (find_where (permission_due_monthly t) w.db.user_tunnels
        ++ find_where (permission_due_weekly t) w.db.user_tunnels)
      w

-- The commands of `pauseSingleForward`: the exit node is told only if its row exists.
unfoldable pub pause_single_on_nodes : Env → Forward → Tunnel → Node → Text → World → World
unfolding pause_service_command pause_service_multi_ip pause_remote_service get_node_by_id
pause_single_on_nodes env fwd tunnel in_node name w =
    let w' =
      if is_multi_ip fwd.listen_ip
      then (pause_service_multi_ip env in_node.id name fwd.listen_ip w).1
      else (pause_service_command env in_node.id name w).1 in
    if eq_ℤ tunnel.type tunnel_forward
    then elim (get_node_by_id w.db tunnel.out_node_id) [
      | none ↦ w'
      | some out_node ↦ (pause_remote_service env out_node.id name w').1
    ]
    else w'

-- A missing permission leaves the zero value, with id 0, for the name.
unfoldable pub pause_single_forward : Env → Forward → World → World
unfolding get_tunnel get_user_tunnel pause_single_on_nodes update_forward_status
pause_single_forward env fwd w = elim (get_tunnel w.db fwd.tunnel_id) [
  | none ↦ w
  | some tunnel ↦ elim (get_node_by_id w.db tunnel.in_node_id) [
    | none ↦ w
    | some in_node ↦
        let ut = get_user_tunnel w.db fwd.user_id tunnel.id in
        let name = service_name fwd.id fwd.user_id (user_tunnel_id ut) in
        update_forward_status fwd.id paused (pause_single_on_nodes env fwd tunnel in_node name w)
  ]
]

unfoldable pub pause_user_forwards : Env → ℕ → World → World
unfolding pause_single_forward
pause_user_forwards env user_id w =
    for_each (pause_single_forward env)
      (find_where (λ (f : Forward). (f.user_id == user_id) && eq_ℤ f.status (pos 1)) w.db.forwards)
      w

unfoldable pub pause_user_tunnel_forwards : Env → ℕ → ℕ → World → World
unfolding pause_single_forward
pause_user_tunnel_forwards env user_id tunnel_id w =
    for_each (pause_single_forward env)
      (find_where
        (λ (f : Forward).
          (f.user_id == user_id) && (f.tunnel_id == tunnel_id) && eq_ℤ f.status (pos 1))
        w.db.forwards)
      w

-- `exp_time > 0 AND exp_time <= ? AND status = 1`
abbrev pub is_expired : ℤ → (exp_time status : ℤ) → Bool
is_expired now exp_time status = ltb_ℤ (pos 0) exp_time && leb_ℤ exp_time now && eq_ℤ status (pos 1)

abbrev pub disable_user : User → User
disable_user u = record u { status = pos 0 }

abbrev pub disable_user_tunnel : UserTunnel → UserTunnel
disable_user_tunnel ut = record ut { status = pos 0 }

unfoldable pub expire_user : Env → User → World → World
unfolding pause_user_forwards
expire_user env u w =
    let w' = pause_user_forwards env u.id w in
    with_users w' (update_where (by_id (λ r. r.id) u.id) disable_user w'.db.users)

unfoldable pub expire_users : Env → World → World
unfolding expire_user
expire_users env w =
    for_each (expire_user env)
      (find_where (λ (u : User). is_expired env.now u.exp_time u.status) w.db.users) w

unfoldable pub expire_user_tunnel : Env → UserTunnel → World → World
unfolding pause_user_tunnel_forwards
expire_user_tunnel env ut w =
    let w' = pause_user_tunnel_forwards env ut.user_id ut.tunnel_id w in
    with_user_tunnels w'
      (update_where (by_id (λ r. r.id) ut.id) disable_user_tunnel w'.db.user_tunnels)

unfoldable pub expire_user_tunnels : Env → World → World
unfolding expire_user_tunnel
expire_user_tunnels env w =
    for_each (expire_user_tunnel env)
      (find_where (λ (ut : UserTunnel). is_expired env.now ut.exp_time ut.status) w.db.user_tunnels)
      w

unfoldable pub reset_flow : Today → Env → World → World
unfolding reset_users reset_user_tunnels expire_users expire_user_tunnels
reset_flow t env w =
    expire_user_tunnels env (expire_users env (reset_user_tunnels t (reset_users t w)))
