-- ===== src/Pause/Exact.antt =====
-- Pausing the forwards that a query found changes their status and nothing else.
use flux_panel_plus.Prelude.{
  ℕ, eq_ℤ, eq_ℤ_iff, ◌≡◌, refl, ap, ◌∙◌, Bool, true, false, not, ◌&&◌, none, some, List, arith,
  if◌then◌else◌, Option-cases, inl, inr,
}
use flux_panel_plus.Prelude.Text.{Text}
use flux_panel_plus.Prelude.Table.{find_where, update_where, update_where-agree, by_id, Distinct}
use flux_panel_plus.Model.{Tunnel, Forward}
use flux_panel_plus.Model.Database.{Db}
use flux_panel_plus.Gost.Commands.{World, Env, Command, send_msg}
use flux_panel_plus.Pause.Loop.{with_forwards, loop_found-db}
use flux_panel_plus.Pause.Defs.{
  paused, get_tunnel, set_status, pause_on_nodes, pause_forward_service, pause_forward_services,
}

-- Sending a command leaves the database alone.
pub send_msg-db : (env : Env) (n : ℕ) (c : Command) (w : World) → (send_msg env n c w).1.db ≡ w.db
unfolding send_msg
send_msg-db env n c w = ground arith

pub pause_on_nodes-db :
    (env : Env) (f : Forward) (t : Tunnel) (name : Text) (w : World)
    → (pause_on_nodes env f t name w).db ≡ w.db
unfolding pause_on_nodes send_msg
pause_on_nodes-db env f t name w = ground arith

-- The forward's tunnel exists.
abbrev pub has_tunnel : Db → Forward → Bool
has_tunnel db f = elim (get_tunnel db f.tunnel_id) [ none ↦ false | some t ↦ true ]

needs_pause : Db → Forward → Bool
needs_pause db f = not (eq_ℤ f.status paused) && has_tunnel db f

pause_one-db :
    (env : Env) (f : Forward) (w : World)
    → (pause_forward_service env f w).db ≡ (
        if needs_pause w.db f
        then with_forwards w.db
            (update_where (by_id (λ g. g.id) f.id) (set_status paused) w.db.forwards)
        else w.db)
unfolding pause_forward_service needs_pause
pause_one-db env f w = elim (Option-cases (get_tunnel w.db f.tunnel_id)) [
  | inl e ↦ ground (arith, e)
  | inr (t, e) ↦ ground (arith, e, pause_on_nodes-db env f t)
]

needs_pause-with_forwards :
    (db : Db) (fs : List Forward) (f : Forward)
    → needs_pause (with_forwards db fs) f ≡ needs_pause db f
unfolding needs_pause get_tunnel
needs_pause-with_forwards db fs f = refl

pause_again : (f : Forward) → eq_ℤ f.status paused ≡ true → set_status paused f ≡ f
pause_again f h = ground (arith, (eq_ℤ_iff f.status paused).0 h)

skip_paused :
    (db : Db) (p : Forward → Bool) (f : Forward)
    → (if p f && needs_pause db f then set_status paused f else f)
      ≡ (if p f && has_tunnel db f then set_status paused f else f)
unfolding needs_pause
skip_paused db p f = ground (arith, pause_again f)

-- On distinct forward ids, pausing the forwards that a query found sets the status of exactly those
-- of them whose tunnel exists to paused, and changes nothing else in the database.
pub pause_found :
    (env : Env) (db : Db) (p : Forward → Bool) (rows : List Forward) (w : World)
    → Distinct (λ (f : Forward). f.id) rows
    → w.db ≡ with_forwards db rows
    → (pause_forward_services env (find_where p rows) w).db
      ≡ with_forwards db (update_where (λ f. p f && has_tunnel db f) (set_status paused) rows)
unfolding pause_forward_services
pause_found env db p rows w d e =
    loop_found-db (pause_forward_service env) needs_pause (pause_one-db env)
      needs_pause-with_forwards db p rows w d e
    ∙ ap (with_forwards db) (
        update_where-agree (λ f. p f && needs_pause db f) (λ f. p f && has_tunnel db f)
          (set_status paused) rows (skip_paused db p))
