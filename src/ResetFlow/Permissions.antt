-- ===== src/ResetFlow/Permissions.antt =====
-- Which permissions the daily check of expiry disables, and which forwards it pauses.
use flux_panel_plus.Prelude.{
  pos, eq_ℤ, ◌≡◌, refl, sym, ap, ◌∙◌, Bool, true, false, ◌&&◌, ◌||◌, List, [], ◌∷◌, arith, ◌==◌,
  subst,
}
use flux_panel_plus.Prelude.Table.{
  find_where, update_where, update_where-cong, update_where_none, update_where_compose,
  update_where-Distinct, update_each, update_each-find, by_id, for_each, Distinct,
}
use flux_panel_plus.Model.{UserTunnel, Forward}
use flux_panel_plus.Model.Database.{Db}
use flux_panel_plus.Gost.Commands.{World, Env}
use flux_panel_plus.Ports.Defs.{get_node_by_id}
use flux_panel_plus.Pause.Defs.{paused, get_tunnel, set_status}
use flux_panel_plus.Pause.Loop.{with_forwards, loop_found-db}
use flux_panel_plus.ResetFlow.Defs.{
  pause_single_forward, pause_user_tunnel_forwards, is_expired, disable_user_tunnel,
  expire_user_tunnel, expire_user_tunnels,
}
use flux_panel_plus.ResetFlow.Expiry.{reachable, pause_single-db, reachable-with_forwards}

-- The forward is the user's, on the permission's tunnel.
abbrev pub covers : UserTunnel → Forward → Bool
covers ut f = (f.user_id == ut.user_id) && (f.tunnel_id == ut.tunnel_id)

abbrev pub covered_where : (UserTunnel → Bool) → Forward → List UserTunnel → Bool
covered_where p f [] = false
covered_where p f (ut ∷ uts) = (p ut && covers ut f) || covered_where p f uts

abbrev covered : Forward → List UserTunnel → Bool
covered f uts = covered_where (λ ut. true) f uts

covered-find :
    (p : UserTunnel → Bool) (f : Forward) (uts : List UserTunnel)
    → covered f (find_where p uts) ≡ covered_where p f uts
covered-find p f [] = refl
covered-find p f (ut ∷ uts) = ground (arith, covered-find p f uts)

abbrev permission_stops : Db → UserTunnel → Forward → Bool
permission_stops db ut f =
    ((f.user_id == ut.user_id) && (f.tunnel_id == ut.tunnel_id) && eq_ℤ f.status (pos 1))
    && reachable db f

pause_user_tunnel_forwards-db :
    (env : Env) (ut : UserTunnel) (w : World)
    → Distinct (λ (f : Forward). f.id) w.db.forwards
    → (pause_user_tunnel_forwards env ut.user_id ut.tunnel_id w).db
      ≡ with_forwards w.db
          (update_where (permission_stops w.db ut) (set_status paused) w.db.forwards)
unfolding pause_user_tunnel_forwards
pause_user_tunnel_forwards-db env ut w d =
    loop_found-db (pause_single_forward env) reachable (pause_single-db env) reachable-with_forwards
      w.db
      (λ f. (f.user_id == ut.user_id) && (f.tunnel_id == ut.tunnel_id) && eq_ℤ f.status (pos 1))
      w.db.forwards w d refl

abbrev pub with_permissions : Db → List UserTunnel → List Forward → Db
with_permissions db uts fs = record db { user_tunnels = uts; forwards = fs }

reachable-with_permissions :
    (db : Db) (uts : List UserTunnel) (fs : List Forward) (f : Forward)
    → reachable (with_permissions db uts fs) f ≡ reachable db f
unfolding get_tunnel get_node_by_id
reachable-with_permissions db uts fs f = refl

abbrev stops : Db → List UserTunnel → Forward → Bool
stops db uts f = covered f uts && eq_ℤ f.status (pos 1) && reachable db f

expire_user_tunnel-db :
    (env : Env) (db : Db) (ut : UserTunnel) (rows : List UserTunnel) (forwards : List Forward)
    (w : World)
    → Distinct (λ (f : Forward). f.id) forwards
    → w.db ≡ with_permissions db rows forwards
    → (expire_user_tunnel env ut w).db
      ≡ with_permissions db
          (update_where (by_id (λ r. r.id) ut.id) disable_user_tunnel rows)
          (update_where (permission_stops db ut) (set_status paused) forwards)
unfolding expire_user_tunnel
expire_user_tunnel-db env db ut rows forwards w d e =
    let d' = subst (λ b. Distinct (λ (f : Forward). f.id) b.forwards) (sym e) d in
    ap
      (λ (b : Db). record b {
        user_tunnels = update_where (by_id (λ r. r.id) ut.id) disable_user_tunnel b.user_tunnels;
      })
      (pause_user_tunnel_forwards-db env ut w d'
        ∙ ap
            (λ (b : Db).
              with_forwards b (update_where (permission_stops b ut) (set_status paused) b.forwards))
            e
        ∙ ap (with_permissions db rows) (
            update_where-cong (permission_stops (with_permissions db rows forwards) ut)
              (permission_stops db ut) (set_status paused) forwards
              (λ f.
                ap
                  (λ b.
                    ((f.user_id == ut.user_id)
                      && (f.tunnel_id == ut.tunnel_id)
                      && eq_ℤ f.status (pos 1))
                    && b)
                  (reachable-with_permissions db rows forwards f))))

expire_permission_loop-db :
    (env : Env) (db : Db) (uts rows : List UserTunnel) (forwards : List Forward) (w : World)
    → Distinct (λ (f : Forward). f.id) forwards
    → w.db ≡ with_permissions db rows forwards
    → (for_each (expire_user_tunnel env) uts w).db
      ≡ with_permissions db
          (update_each (λ ut. ut.id) disable_user_tunnel uts rows)
          (update_where (stops db uts) (set_status paused) forwards)
expire_permission_loop-db env db [] rows forwards w d e =
    e
    ∙ ap (with_permissions db rows)
        (sym (update_where_none (stops db []) (set_status paused) forwards (λ f. refl)))
expire_permission_loop-db env db (ut ∷ uts) rows forwards w d e =
    expire_permission_loop-db env db uts
      (update_where (by_id (λ r. r.id) ut.id) disable_user_tunnel rows)
      (update_where (permission_stops db ut) (set_status paused) forwards)
      (expire_user_tunnel env ut w)
      (update_where-Distinct (λ (f : Forward). f.id) (permission_stops db ut) (set_status paused)
        forwards (λ f. refl) d)
      (expire_user_tunnel-db env db ut rows forwards w d e)
    ∙ ap
        (with_permissions db (
          update_each (λ r. r.id) disable_user_tunnel uts
            (update_where (by_id (λ r. r.id) ut.id) disable_user_tunnel rows)))
        (update_where_compose (permission_stops db ut) (stops db uts) (set_status paused) forwards
            (λ f. refl)
          ∙ update_where-cong (λ f. permission_stops db ut f || stops db uts f)
              (stops db (ut ∷ uts)) (set_status paused) forwards (λ f. ground arith))

-- The permission is enabled and its time is over.
abbrev pub permission_has_run_out : Env → UserTunnel → Bool
permission_has_run_out env ut = is_expired env.now ut.exp_time ut.status

-- On distinct permission ids and distinct forward ids, the check of permissions disables exactly the
-- enabled permissions whose expiry time above 0 has been reached, pauses exactly the active forwards
-- of their users on their tunnels whose tunnel and its entry node exist, and changes nothing else in
-- the database.
pub expire_user_tunnels-db :
    (env : Env) (w : World)
    → Distinct (λ (ut : UserTunnel). ut.id) w.db.user_tunnels
    → Distinct (λ (f : Forward). f.id) w.db.forwards
    → (expire_user_tunnels env w).db
      ≡ with_permissions w.db
          (update_where (permission_has_run_out env) disable_user_tunnel w.db.user_tunnels)
          (update_where
            (λ f.
              covered_where (permission_has_run_out env) f w.db.user_tunnels
              && eq_ℤ f.status (pos 1)
              && reachable w.db f)
            (set_status paused)
            w.db.forwards)
unfolding expire_user_tunnels
expire_user_tunnels-db env w du df =
    let found = find_where (permission_has_run_out env) w.db.user_tunnels in
    expire_permission_loop-db env w.db found w.db.user_tunnels w.db.forwards w df refl
    ∙ ap
        (λ uts.
          with_permissions w.db uts
            (update_where (stops w.db found) (set_status paused) w.db.forwards))
        (update_each-find (λ (ut : UserTunnel). ut.id) (permission_has_run_out env)
          disable_user_tunnel w.db.user_tunnels (λ u. refl) (λ u. refl) du)
    ∙ ap
        (with_permissions w.db
          (update_where (permission_has_run_out env) disable_user_tunnel w.db.user_tunnels))
        (update_where-cong (stops w.db found) _ (set_status paused) w.db.forwards (λ f.
          ap (λ b. b && eq_ℤ f.status (pos 1) && reachable w.db f)
            (covered-find (permission_has_run_out env) f w.db.user_tunnels)))
