-- ===== src/Tests/Accounting.antt =====
-- Traffic reports on the small panel, and the limits that they enforce.
use flux_panel_plus.Prelude.{
  mul64, add64, wrap64, ◌*◌, ◌∷◌, [], none, ◌==◌, ◌&&◌, pos, ◌+ℤ◌, ◌*ℤ◌, ◌≤ℤ◌, ◌<ℤ◌, ◌≡◌, ◌≢◌, ◌↔◌,
  ◌⊎◌, refl, true, arith,
}
use flux_panel_plus.Prelude.Text.{codes}
use flux_panel_plus.Model.{XrayClient}
use flux_panel_plus.Prelude.Table.{update_where, find_where}
use flux_panel_plus.Pause.Defs.{paused, set_status, pause_forward_services}
use flux_panel_plus.Pause.Exact.{has_tunnel, pause_found}
use flux_panel_plus.Pause.Loop.{with_forwards}
use flux_panel_plus.Flow.Defs.{bytes_to_gb, billing, billed, must_pause_user, process_flow_data}
use flux_panel_plus.Flow.Limits.{must_pause_user_iff}
use flux_panel_plus.Flow.Enforcement.{is_stopped, pause_those}
use flux_panel_plus.Flow.Report.{billed_db, report_of, process_flow_data-db}
use flux_panel_plus.Gost.Commands.{World}
use flux_panel_plus.Permissions.Defs.{get_user}
use flux_panel_plus.Xray.Defs.{disable_client, is_enabled_of, check_user_xray_limits}
use flux_panel_plus.Xray.Limits.{with_clients, user_used_up, check_user_xray_limits-db}
use flux_panel_plus.Tests.Rows.{alice, forward, sample, world, online, keys, whole}

-- Ten bytes up and twenty down count double on the sample's tunnel.
billed_twice : billed whole (billing whole sample forward) (pos 20) ≡ pos 40
unfolding billed billing
billed_twice = refl

process_flow_data-db_example :
    let rate = billing whole sample forward in
    let db = billed_db 1 7 3 (billed whole rate (pos 20)) (billed whole rate (pos 10)) sample in
    (process_flow_data keys online whole (report_of 1 7 3 (codes "tcp") (pos 10) (pos 20)) world).db
    ≡ pause_those (is_stopped online.now db 7 3) db
process_flow_data-db_example =
    process_flow_data-db keys online whole 1 7 3 (codes "tcp") (pos 10) (pos 20) world {f = forward}
      (omega arith) (omega arith) (refl, tt) refl

pause_found_example :
    (pause_forward_services online (find_where (λ f. f.user_id == 7) sample.forwards) world).db
    ≡ with_forwards sample (
        update_where
          (λ f. (f.user_id == 7) && has_tunnel sample f)
          (set_status paused)
          sample.forwards)
pause_found_example =
    pause_found online sample (λ f. f.user_id == 7) sample.forwards world (refl, tt) refl

must_pause_user_iff_example : (must_pause_user (pos 0) alice ≡ true) ↔ (
    ((alice.flow ≢ pos 0) × (alice.flow *ℤ bytes_to_gb <ℤ alice.in_flow +ℤ alice.out_flow))
    ⊎ ((pos 0 <ℤ alice.exp_time) × (alice.exp_time ≤ℤ pos 0))
    ⊎ (alice.status ≢ pos 1))
unfolding ◌+ℤ◌ ◌*ℤ◌
must_pause_user_iff_example =
    must_pause_user_iff (pos 0) alice (omega arith, omega arith) (omega arith, omega arith)

abbrev client : XrayClient
client = record {
  id = 1;
  inbound_id = 1;
  user_id = 7;
  email = codes "a@example.org";
  uuid_or_password = [];
  flow = [];
  alter_id = pos 0;
  total_traffic = pos 0;
  up_traffic = pos 0;
  down_traffic = pos 0;
  exp_time = none;
  limit_ip = pos 0;
  reset = pos 0;
  enable = pos 1;
  remark = [];
  created_time = pos 0;
  updated_time = pos 0;
}

-- Alice has used her gigabyte of Xray traffic.
abbrev used_up : World
used_up = record world {
  db = record sample {
    users = record alice { xray_flow = pos 1; xray_in_flow = pos (1024 * 1024 * 1024) } ∷ [];
    xray_clients = client ∷ [];
  };
}

check_user_xray_limits-db_example :
    (check_user_xray_limits online 7 used_up).db
    ≡ with_clients used_up.db (
        update_where
          (λ c. user_used_up (get_user used_up.db 7) && is_enabled_of 7 c)
          disable_client
          (client ∷ []))
check_user_xray_limits-db_example = check_user_xray_limits-db online 7 used_up (refl, tt)

client_is_cut :
    (check_user_xray_limits online 7 used_up).db.xray_clients ≡ disable_client client ∷ []
unfolding check_user_xray_limits mul64 add64 wrap64 ◌*ℤ◌ ◌+ℤ◌
client_is_cut = refl
