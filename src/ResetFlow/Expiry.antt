-- ===== src/ResetFlow/Expiry.antt =====
-- Whom the daily check of expiry disables, and which forwards it pauses.
use flux_panel_plus.Prelude.{
  ℕ, pos, eq_ℤ, ◌≡◌, refl, sym, ap, ◌∙◌, Bool, true, false, ◌&&◌, ◌||◌, Option, none, some, List,
  [], ◌∷◌, arith, ◌==◌, if◌then◌else◌, Option-cases, inl, inr, subst,
}
use flux_panel_plus.Prelude.Text.{Text}
use flux_panel_plus.Prelude.Table.{
  first_where, find_where, update_where, update_where-cong, update_where_none, update_where_compose,
  update_where-Distinct, update_each, update_each-find, by_id, has_id, has_id-find, row_satisfies,
  for_each, Distinct,
}
use flux_panel_plus.Model.{User, Tunnel, Forward, Node}
use flux_panel_plus.Model.Database.{Db}
use flux_panel_plus.Gost.Commands.{World, Env, send_msg}
use flux_panel_plus.Ports.Defs.{get_node_by_id}
use flux_panel_plus.Pause.Defs.{paused, get_tunnel, set_status}
use flux_panel_plus.Pause.Loop.{with_forwards, pause_row, loop_found-db}
use flux_panel_plus.ResetFlow.Defs.{
  pause_single_on_nodes, pause_single_forward, pause_user_forwards, is_expired, disable_user,
  expire_user, expire_users,
}

abbrev node_exists : Option Node → Bool
node_exists none = false
node_exists (some n) = true

-- The forward's tunnel and the entry node of that exist.
abbrev pub reachable : Db → Forward → Bool
reachable db f = elim (get_tunnel db f.tunnel_id) [
  | none ↦ false
  | some t ↦ node_exists (get_node_by_id db t.in_node_id)
]

pause_single_on_nodes-db :
    (env : Env) (f : Forward) (t : Tunnel) (n : Node) (name : Text) (w : World)
    → (pause_single_on_nodes env f t n name w).db ≡ w.db
unfolding pause_single_on_nodes send_msg
pause_single_on_nodes-db env f t n name w =
    elim (Option-cases (get_node_by_id w.db t.out_node_id)) [
      | inl e ↦ ground (arith, e)
      | inr (m, e) ↦ ground (arith, e)
    ]

pub pause_single-db :
    (env : Env) (f : Forward) (w : World)
    → (pause_single_forward env f w).db
      ≡ (if reachable w.db f then with_forwards w.db (pause_row f w.db.forwards) else w.db)
unfolding pause_single_forward
pause_single-db env f w = elim (Option-cases (get_tunnel w.db f.tunnel_id)) [
  | inl e ↦ ground (arith, e)
  | inr (t, e) ↦ elim (Option-cases (get_node_by_id w.db t.in_node_id)) [
    | inl k ↦ ground (arith, e, k)
    | inr (n, k) ↦ ground (arith, e, k, pause_single_on_nodes-db env f t n)
  ]
]

pub reachable-with_forwards :
    (db : Db) (fs : List Forward) (f : Forward) → reachable (with_forwards db fs) f ≡ reachable db f
unfolding get_tunnel get_node_by_id
reachable-with_forwards db fs f = refl

-- An active forward of the user that can be paused.
abbrev user_stops : Db → ℕ → Forward → Bool
user_stops db user_id f = ((f.user_id == user_id) && eq_ℤ f.status (pos 1)) && reachable db f

pause_user_forwards-db :
    (env : Env) (user_id : ℕ) (w : World)
    → Distinct (λ (f : Forward). f.id) w.db.forwards
    → (pause_user_forwards env user_id w).db
      ≡ with_forwards w.db
          (update_where (user_stops w.db user_id) (set_status paused) w.db.forwards)
unfolding pause_user_forwards
pause_user_forwards-db env user_id w d =
    loop_found-db (pause_single_forward env) reachable (pause_single-db env) reachable-with_forwards
      w.db (λ f. (f.user_id == user_id) && eq_ℤ f.status (pos 1)) w.db.forwards w d refl

abbrev pub with_both : Db → List User → List Forward → Db
with_both db us fs = record db { users = us; forwards = fs }

reachable-with_both :
    (db : Db) (us : List User) (fs : List Forward) (f : Forward)
    → reachable (with_both db us fs) f ≡ reachable db f
unfolding get_tunnel get_node_by_id
reachable-with_both db us fs f = refl

-- The forwards that the loop over these users pauses.
abbrev stops : Db → List User → Forward → Bool
stops db us f = has_id (λ (u : User). u.id) f.user_id us && eq_ℤ f.status (pos 1) && reachable db f

expire_user-db :
    (env : Env) (db : Db) (u : User) (users : List User) (forwards : List Forward) (w : World)
    → Distinct (λ (f : Forward). f.id) forwards
    → w.db ≡ with_both db users forwards
    → (expire_user env u w).db
      ≡ with_both db
          (update_where (by_id (λ r. r.id) u.id) disable_user users)
          (update_where (user_stops db u.id) (set_status paused) forwards)
unfolding expire_user
expire_user-db env db u users forwards w d e =
    let d' = subst (λ b. Distinct (λ (f : Forward). f.id) b.forwards) (sym e) d in
    ap (λ (b : Db). record b { users = update_where (by_id (λ r. r.id) u.id) disable_user b.users })
      (pause_user_forwards-db env u.id w d'
        ∙ ap
            (λ (b : Db).
              with_forwards b (update_where (user_stops b u.id) (set_status paused) b.forwards))
            e
        ∙ ap (with_both db users) (
            update_where-cong (user_stops (with_both db users forwards) u.id) (user_stops db u.id)
              (set_status paused) forwards
              (λ f.
                ap (λ b. ((f.user_id == u.id) && eq_ℤ f.status (pos 1)) && b)
                  (reachable-with_both db users forwards f))))

expire_loop-db :
    (env : Env) (db : Db) (us users : List User) (forwards : List Forward) (w : World)
    → Distinct (λ (f : Forward). f.id) forwards
    → w.db ≡ with_both db users forwards
    → (for_each (expire_user env) us w).db
      ≡ with_both db
          (update_each (λ u. u.id) disable_user us users)
          (update_where (stops db us) (set_status paused) forwards)
expire_loop-db env db [] users forwards w d e =
    e
    ∙ ap (with_both db users)
        (sym (update_where_none (stops db []) (set_status paused) forwards (λ f. refl)))
expire_loop-db env db (u ∷ us) users forwards w d e =
    expire_loop-db env db us (update_where (by_id (λ r. r.id) u.id) disable_user users)
      (update_where (user_stops db u.id) (set_status paused) forwards) (expire_user env u w)
      (update_where-Distinct (λ (f : Forward). f.id) (user_stops db u.id) (set_status paused)
        forwards (λ f. refl) d)
      (expire_user-db env db u users forwards w d e)
    ∙ ap
        (with_both db (
          update_each (λ r. r.id) disable_user us
            (update_where (by_id (λ r. r.id) u.id) disable_user users)))
        (update_where_compose (user_stops db u.id) (stops db us) (set_status paused) forwards
            (λ f. refl)
          ∙ update_where-cong (λ f. user_stops db u.id f || stops db us f) (stops db (u ∷ us))
              (set_status paused) forwards (λ f. ground arith))

-- The user's account is enabled and its time is over.
abbrev pub has_run_out : Env → User → Bool
has_run_out env u = is_expired env.now u.exp_time u.status

-- The owner's row says so.
abbrev pub owner_has_run_out : Env → Db → Forward → Bool
owner_has_run_out env db f =
    row_satisfies (λ (u : User). u.id) (has_run_out env)
      (first_where (by_id (λ (u : User). u.id) f.user_id) db.users)

-- On distinct user ids and distinct forward ids, the check of users disables exactly the enabled
-- users whose expiry time above 0 has been reached, pauses exactly the active forwards of these
-- whose tunnel and its entry node exist, and changes nothing else in the database.
pub expire_users-db :
    (env : Env) (w : World)
    → Distinct (λ (u : User). u.id) w.db.users
    → Distinct (λ (f : Forward). f.id) w.db.forwards
    → (expire_users env w).db
      ≡ with_both w.db (update_where (has_run_out env) disable_user w.db.users) (
          update_where
            (λ f. owner_has_run_out env w.db f && eq_ℤ f.status (pos 1) && reachable w.db f)
            (set_status paused)
            w.db.forwards)
unfolding expire_users
expire_users-db env w du df =
    let found = find_where (has_run_out env) w.db.users in
    expire_loop-db env w.db found w.db.users w.db.forwards w df refl
    ∙ ap
        (λ us.
          with_both w.db us (update_where (stops w.db found) (set_status paused) w.db.forwards))
        (update_each-find (λ (u : User). u.id) (has_run_out env) disable_user w.db.users (λ u. refl)
          (λ u. refl) du)
    ∙ ap (with_both w.db (update_where (has_run_out env) disable_user w.db.users)) (
        update_where-cong (stops w.db found) _ (set_status paused) w.db.forwards (λ f.
          ap (λ b. b && eq_ℤ f.status (pos 1) && reachable w.db f)
            (has_id-find (λ (u : User). u.id) (has_run_out env) f.user_id w.db.users du)))
