-- ===== src/Tests/Schedules.antt =====
-- The daily reset, the rate limiter and the failover at work.
use Prim.Native.Nat.{min}
use flux_panel_plus.Prelude.{
  eq_ℤ, ◌&&◌, ℕ, ℤ, pos, ◌≤ℤ◌, ◌≡◌, refl, inl, ◌||◌, true, false, none, some, List, [], ◌∷◌, arith,
  All, ◌==◌,
}
use flux_panel_plus.Prelude.Text.{Text, codes}
use flux_panel_plus.Prelude.Table.{update_where, first_where, by_id}
use flux_panel_plus.Model.{NodeGroup, GroupMember}
use flux_panel_plus.Gost.Commands.{World, Env}
use flux_panel_plus.ResetFlow.Defs.{
  Today, days_in_current_month, is_reset_day, permission_due_monthly, permission_due_weekly,
  zero_user_tunnel, with_users, with_user_tunnels, reset_users, disable_user, expire_users,
}
use flux_panel_plus.ResetFlow.Calendar.{count_days, monthly_reset_once}
use flux_panel_plus.ResetFlow.Exact.{is_day_of, without_traffic, reset_users_exact}
use flux_panel_plus.Pause.Defs.{paused, set_status}
use flux_panel_plus.ResetFlow.Expiry.{
  reachable, with_both, has_run_out, owner_has_run_out, expire_users-db,
}
use flux_panel_plus.ResetFlow.Permissions.{
  covered_where, with_permissions, permission_has_run_out, expire_user_tunnels-db,
}
use flux_panel_plus.ResetFlow.Defs.{disable_user_tunnel, expire_user_tunnels}
use flux_panel_plus.Tests.Rows.{pass}
use flux_panel_plus.RateLimit.Defs.{login_limiter, cleanup, count_allowed, count_requests}
use flux_panel_plus.RateLimit.Window.{window_quota}
use flux_panel_plus.RateLimit.Cleanup.{count_allowed-cleanup}
use flux_panel_plus.Failover.Defs.{
  Dns, Site, member_healthy, active_group_member, evaluate_group_failover,
}
use flux_panel_plus.Failover.Best.{IsRow, active_group_member_best}
use flux_panel_plus.Failover.Switch.{
  evaluate_group_failover_settles, evaluate_group_failover_online,
}
use flux_panel_plus.Tests.Rows.{alice, sample, world, online, half_online}

-- The last day of February, a Monday.
abbrev pub today : Today
today = record { year = 2022; month = 2; day_of_month = 28; day_of_week = 1 }

abbrev reset_weekly : World
reset_weekly = with_user_tunnels world (
    update_where (λ u. permission_due_monthly today u || permission_due_weekly today u)
      zero_user_tunnel sample.user_tunnels)

-- Day 31 is due on the 28th.
reset_in_february :
    reset_users today world ≡ with_users world (record alice { in_flow = pos 0 } ∷ [])
unfolding reset_users is_reset_day days_in_current_month
reset_in_february = refl

reset_users_exact_example :
    reset_users today world
    ≡ with_users world (update_where (is_day_of today) without_traffic sample.users)
unfolding days_in_current_month
reset_users_exact_example = reset_users_exact today world (omega arith) (refl, tt)

-- Alice, long expired.
abbrev overdue : World
overdue = record world { db = record sample { users = record alice { exp_time = pos 5 } ∷ [] } }

expire_users-db_example :
    (expire_users online overdue).db
    ≡ with_both overdue.db (update_where (has_run_out online) disable_user overdue.db.users) (
        update_where
          (λ f.
            owner_has_run_out online overdue.db f
            && eq_ℤ f.status (pos 1)
            && reachable overdue.db f)
          (set_status paused)
          sample.forwards)
expire_users-db_example = expire_users-db online overdue (refl, tt) (refl, tt)

-- Her permission, long expired.
abbrev lapsed : World
lapsed = record world {
  db = record sample { user_tunnels = record pass { exp_time = pos 5 } ∷ [] };
}

expire_user_tunnels-db_example :
    (expire_user_tunnels online lapsed).db
    ≡ with_permissions lapsed.db
        (update_where (permission_has_run_out online) disable_user_tunnel lapsed.db.user_tunnels)
        (update_where
          (λ f.
            covered_where (permission_has_run_out online) f lapsed.db.user_tunnels
            && eq_ℤ f.status (pos 1)
            && reachable lapsed.db f)
          (set_status paused)
          sample.forwards)
expire_user_tunnels-db_example = expire_user_tunnels-db online lapsed (refl, tt) (refl, tt)

monthly_reset_once_example :
    let days = days_in_current_month 2022 2 in
    count_days days (λ d. is_reset_day (pos 31) d days) ≡ 1
monthly_reset_once_example = monthly_reset_once 2022 2 31 (omega arith)

abbrev attempts : List (Text × ℕ)
attempts = (codes "b", 3) ∷ (codes "a", 5) ∷ []

window_quota_example :
    count_allowed (codes "a") ((codes "a", 2) ∷ attempts) login_limiter
    ≡ min (count_requests (codes "a") ((codes "a", 2) ∷ attempts)) login_limiter.limit
unfolding login_limiter
window_quota_example =
    window_quota (codes "a") 2 attempts login_limiter (omega arith) refl
      (omega arith, (omega arith, tt))

count_allowed-cleanup_example :
    count_allowed (codes "a") attempts (cleanup 2 login_limiter)
    ≡ count_allowed (codes "a") attempts login_limiter
count_allowed-cleanup_example =
    count_allowed-cleanup 2 (codes "a") attempts login_limiter (omega arith, (omega arith, tt))

abbrev member : ℕ → ℤ → GroupMember
member node_id priority = record {
  id = node_id;
  group_id = 1;
  node_id = node_id;
  member_ip = codes "203.0.113.1";
  priority = priority;
  created_time = pos 0;
  updated_time = pos 0;
}

abbrev group : NodeGroup
group = record {
  id = 1;
  name = [];
  type = [];
  switch_back = pos 1;
  active_member_id = 5;
  last_switch_time = pos 0;
  created_time = pos 0;
  updated_time = pos 0;
  status = pos 1;
  inx = pos 0;
}

abbrev site : Site
site = record {
  db = record sample { groups = group ∷ []; members = member 5 (pos 1) ∷ member 6 (pos 2) ∷ [] };
  dns_calls = [];
}

abbrev dns : Dns
dns = record { crypto = none; accepts = λ t c. false; set_record = λ calls. false }

-- Node 5 has failed.
switches : (evaluate_group_failover half_online dns group site).0.active_member_id ≡ 6
unfolding evaluate_group_failover
switches = refl

active_group_member_best_example :
    IsRow site.db.members (member 6 (pos 2))
    × ((member 6 (pos 2)).group_id ≡ 1)
    × (member_healthy half_online (member 6 (pos 2)) ≡ true)
    × All
        (λ m. (m.group_id == 1) ≡ true → member_healthy half_online m ≡ true → pos 2 ≤ℤ m.priority)
        site.db.members
unfolding active_group_member
active_group_member_best_example =
    active_group_member_best half_online site.db 1 {b = member 6 (pos 2)} refl

-- An hour later.
abbrev later : Env
later = record half_online { now = pos 3700000 }

-- The row that the first evaluation has left.
abbrev moved : NodeGroup
moved = record group { active_member_id = 6; last_switch_time = pos 100000 }

evaluate_group_failover_settles_example :
    let s' = (evaluate_group_failover half_online dns group site).1 in
    evaluate_group_failover later dns moved s' ≡ (moved, s')
unfolding evaluate_group_failover
evaluate_group_failover_settles_example =
    evaluate_group_failover_settles half_online dns later group site {row = moved} (λ n. refl) refl
      (inl refl) refl

evaluate_group_failover_online_example :
    (g' : NodeGroup) × (first_where
        (by_id (λ (r : NodeGroup). r.id) 1)
        (evaluate_group_failover half_online dns group site).1.db.groups
      ≡ some g')
    × (half_online.is_node_online g'.active_member_id ≡ true)
    × (pos 1 ≡ pos 1 → g'.active_member_id ≡ 6)
unfolding active_group_member
evaluate_group_failover_online_example =
    evaluate_group_failover_online half_online dns group site {b = member 6 (pos 2)} refl refl
      (inl refl)
