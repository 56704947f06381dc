-- ===== src/Tests/Forwards.antt =====
-- The handlers on the small panel.
use flux_panel_plus.Prelude.{
  ◌⊎◌, ◌≤ℤ◌, arith, pos, ◌≡◌, refl, true, false, none, some, [], ◌∷◌, if◌then◌else◌, mul64, wrap64,
  add64, ◌*ℤ◌, ◌+ℤ◌,
}
use flux_panel_plus.Prelude.Table.{count_where}
use flux_panel_plus.Model.{User, UserTunnel, Tunnel}
use flux_panel_plus.Response.{ok}
use flux_panel_plus.Pause.Defs.{active, paused, get_tunnel, get_user_tunnel}
use flux_panel_plus.Flow.Defs.{must_pause_user, must_pause_user_tunnel}
use flux_panel_plus.Permissions.Defs.{
  get_user, check_user_permissions, counts_for_user, counts_for_tunnel,
}
use flux_panel_plus.Permissions.Granted.{IsBelow, check_user_permissions_granted}
use flux_panel_plus.Forwards.Steps.{validate_forward_exists, set_forward_status, delete_forward_row}
use flux_panel_plus.Forwards.Handlers.{pause_forward, resume_forward, delete_forward}
use flux_panel_plus.Forwards.Commits.{pause_forward-db, resume_forward-db}
use flux_panel_plus.Forwards.Deletion.{delete_forward-db}
use flux_panel_plus.Forwards.Authorization.{Refused, stranger-Refused, resume_forward_within_limits}
use flux_panel_plus.Create.Handler.{ForwardDto, create_tunnel_forward}
use flux_panel_plus.Create.Outcome.{
  Outcome, create_tunnel_forward-Outcome, create_tunnel_forward_within_quota,
}
use flux_panel_plus.Prelude.Text.{codes}
use flux_panel_plus.Actions.{is_ok}
use flux_panel_plus.Gost.Commands.{World}
use flux_panel_plus.Tests.Rows.{alice, pass, tunnel, forward, sample, world, online, half_online}

-- Alice with her traffic reset.
abbrev pub fresh : World
fresh = record world { db = record sample { users = record alice { in_flow = pos 0 } ∷ [] } }

pause_succeeds : is_ok (pause_forward online 1 7 (pos 1) world).0 ≡ true
unfolding pause_forward
pause_succeeds = refl

-- The entry node is offline, so nothing is paused.
pause_fails : is_ok (pause_forward half_online 1 7 (pos 1) world).0 ≡ false
unfolding pause_forward
pause_fails = refl

resume_succeeds : is_ok (resume_forward online 1 7 (pos 1) fresh).0 ≡ true
unfolding resume_forward mul64 wrap64 ◌*ℤ◌ add64 ◌+ℤ◌
resume_succeeds = refl

pause_forward-db_example :
    let (r, w') = pause_forward online 1 7 (pos 1) world in
    w'.db ≡ (if is_ok r then set_forward_status online.now 1 paused sample else sample)
pause_forward-db_example = pause_forward-db online 1 7 (pos 1) world

resume_forward-db_example :
    let (r, w') = resume_forward online 1 7 (pos 1) fresh in
    w'.db ≡ (if is_ok r then set_forward_status online.now 1 active fresh.db else fresh.db)
resume_forward-db_example = resume_forward-db online 1 7 (pos 1) fresh

delete_forward-db_example :
    let (r, w') = delete_forward online 1 7 (pos 1) world in
    w'.db ≡ (if is_ok r then delete_forward_row 1 sample else sample)
unfolding validate_forward_exists
delete_forward-db_example = delete_forward-db online 1 7 (pos 1) world {f = forward} refl

stranger-Refused_example :
    Refused (pause_forward online 1 8 (pos 1)) world
    × Refused (resume_forward online 1 8 (pos 1)) world
    × Refused (delete_forward online 1 8 (pos 1)) world
stranger-Refused_example = stranger-Refused online 1 8 (pos 1) world {f = forward} refl refl

resume_forward_within_limits_example :
    (t : Tunnel) × (user : User) × (p : UserTunnel) × (get_tunnel fresh.db 2 ≡ some t)
    × (t.status ≡ pos 1)
    × (get_user fresh.db 7 ≡ some user)
    × (get_user_tunnel fresh.db 7 t.id ≡ some p)
    × (user.status ≡ pos 1 → must_pause_user online.now user ≡ false)
    × (must_pause_user_tunnel online.now p ≡ false)
unfolding validate_forward_exists
resume_forward_within_limits_example =
    resume_forward_within_limits online 1 7 (pos 1) fresh {f = forward} refl refl refl
      resume_succeeds

permission_granted :
    check_user_permissions online.now fresh.db 7 (pos 1) tunnel none ≡ ok (none, some pass)
unfolding check_user_permissions mul64 wrap64 ◌*ℤ◌ add64 ◌+ℤ◌
permission_granted = refl

check_user_permissions_granted_example :
    (user : User) × (p : UserTunnel) × (get_user fresh.db 7 ≡ some user)
    × (get_user_tunnel fresh.db 7 2 ≡ some p)
    × (some pass ≡ some p)
    × (none ≡ p.speed_id)
    × IsBelow user.num (count_where (counts_for_user 7 none) fresh.db.forwards)
    × IsBelow p.num (count_where (counts_for_tunnel 7 2 none) fresh.db.forwards)
    × (user.status ≡ pos 1 → must_pause_user online.now user ≡ false)
    × (must_pause_user_tunnel online.now p ≡ false)
check_user_permissions_granted_example =
    check_user_permissions_granted online.now fresh.db 7 (pos 1) tunnel none {limiter = none}
      {ut = some pass} refl permission_granted

abbrev request : ForwardDto
request = record {
  name = codes "mail";
  tunnel_id = 2;
  route_id = 0;
  remote_addr = codes "198.51.100.1:25";
  strategy = codes "fifo";
  in_port = none;
  listen_ip = [];
  interface_name = [];
}

create_succeeds :
    is_ok (create_tunnel_forward online 2 request 7 (pos 1) (codes "alice") fresh).0 ≡ true
unfolding create_tunnel_forward mul64 wrap64 ◌*ℤ◌ add64 ◌+ℤ◌
create_succeeds = refl

create_tunnel_forward-Outcome_example :
    Outcome online 2 request 7
      (pos 1)
      (codes "alice")
      fresh
      (create_tunnel_forward online 2 request 7 (pos 1) (codes "alice") fresh)
create_tunnel_forward-Outcome_example =
    create_tunnel_forward-Outcome online 2 request 7 (pos 1) (codes "alice") fresh refl

create_tunnel_forward_within_quota_example :
    let s = create_tunnel_forward online 2 request 7 (pos 1) (codes "alice") fresh in
    (s.1.db ≡ fresh.db) ⊎ (pos (count_where (counts_for_user 7 none) s.1.db.forwards) ≤ℤ pos 5)
unfolding get_user
create_tunnel_forward_within_quota_example =
    create_tunnel_forward_within_quota online 2 request 7 (pos 1) (codes "alice") fresh
      {user = record alice { in_flow = pos 0 }} refl refl refl (ground arith)
