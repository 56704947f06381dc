-- ===== src/Pause/Defs.antt =====
-- go-backend/service/flow.go: pauseForwardServices.
use flux_panel_plus.Prelude.{
  ℕ, ℤ, pos, negsuc, eq_ℤ, Bool, not, ◌&&◌, Option, none, some, List, ◌==◌, if◌then◌else◌,
}
use flux_panel_plus.Prelude.Text.{Text, is_empty, has_char}
use flux_panel_plus.Prelude.Table.{first_where, update_where, by_id, for_each}
use flux_panel_plus.Model.{UserTunnel, Tunnel, Forward}
use flux_panel_plus.Model.Database.{Db}
use flux_panel_plus.Gost.Names.{build_service_name}
use flux_panel_plus.Gost.Commands.{
  World, Env, pause_service_command, pause_service_multi_ip, pause_remote_service,
}
use flux_panel_plus.Ports.Defs.{tunnel_forward}

abbrev pub active : ℤ
active = pos 1

abbrev pub paused : ℤ
paused = pos 0

-- `forwardStatusError`
abbrev pub failed : ℤ
failed = negsuc 0

unfoldable pub get_tunnel : Db → ℕ → Option Tunnel
get_tunnel db id = first_where (by_id (λ (t : Tunnel). t.id) id) db.tunnels

unfoldable pub get_user_tunnel : Db → ℕ → ℕ → Option UserTunnel
get_user_tunnel db user_id tunnel_id =
    first_where (λ ut. (ut.user_id == user_id) && (ut.tunnel_id == tunnel_id)) db.user_tunnels

abbrev pub set_status : ℤ → Forward → Forward
set_status status f = record f { status = status }

-- `DB.Model(&fwd).Update("status", status)`
unfoldable pub update_forward_status : ℕ → ℤ → World → World
update_forward_status id status w = record w {
  db = record (w.db) {
    forwards = update_where (by_id (λ f. f.id) id) (set_status status) w.db.forwards;
  };
}

-- A listen address that holds several addresses.
abbrev pub is_multi_ip : Text → Bool
is_multi_ip listen_ip = not (is_empty listen_ip) && has_char b',' listen_ip

unfoldable pub pause_on_nodes : Env → Forward → Tunnel → Text → World → World
unfolding pause_service_command pause_service_multi_ip pause_remote_service
pause_on_nodes env fwd tunnel name w =
    let w' =
      if is_multi_ip fwd.listen_ip
      then (pause_service_multi_ip env tunnel.in_node_id name fwd.listen_ip w).1
      else (pause_service_command env tunnel.in_node_id name w).1 in
    if eq_ℤ tunnel.type tunnel_forward
    then (pause_remote_service env tunnel.out_node_id name w').1
    else w'

-- The loop's body.
unfoldable pub pause_forward_service : Env → Forward → World → World
unfolding get_tunnel get_user_tunnel build_service_name pause_on_nodes update_forward_status
pause_forward_service env fwd w =
    if eq_ℤ fwd.status paused then w else elim (get_tunnel w.db fwd.tunnel_id) [
      | none ↦ w
      | some tunnel ↦
          let ut = get_user_tunnel w.db fwd.user_id fwd.tunnel_id in
          let name = build_service_name fwd.id fwd.user_id ut in
          update_forward_status fwd.id paused (pause_on_nodes env fwd tunnel name w)
    ]

unfoldable pub pause_forward_services : Env → List Forward → World → World
unfolding pause_forward_service
pause_forward_services env = for_each (pause_forward_service env)
