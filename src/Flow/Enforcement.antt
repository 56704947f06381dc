-- ===== src/Flow/Enforcement.antt =====
-- What a traffic report does to the database: it bills the forward, the user and the permission, and
-- pauses exactly the forwards of a user or a permission that is over its limits.
use flux_panel_plus.Prelude.{
  ℕ, ℤ, ◌^◌, ◌<◌, ◌≡◌, refl, sym, ap, subst, ◌∙◌, Bool, false, ◌&&◌, ◌||◌, Option, none, some,
  arith, ◌==◌, Bool-cases, inl, inr,
}
use flux_panel_plus.Prelude.Text.{decimal}
use flux_panel_plus.Prelude.Table.{
  first_where, first_where-cong, find_where-cong, update_where, update_where-cong,
  update_where_none, update_where_compose, update_where-Distinct, by_id, Distinct,
}
use flux_panel_plus.Model.{User, UserTunnel, Forward}
use flux_panel_plus.Model.Database.{Db}
use flux_panel_plus.Gost.Commands.{World, Env}
use flux_panel_plus.Pause.Defs.{paused, get_tunnel, set_status, pause_forward_services}
use flux_panel_plus.Pause.Exact.{has_tunnel, pause_found}
use flux_panel_plus.Pause.Loop.{with_forwards}
use flux_panel_plus.Flow.Defs.{
  Keys, must_pause_user, must_pause_user_tunnel, limit_user, limit_user_tunnel, check_user_limits,
  check_user_tunnel_limits, pause_all_user_services, pause_specific_forward, enforce_limits,
}
use flux_panel_plus.Flow.Limits.{not_zero_text, parse_id-decimal}

abbrev satisfies {ℓ} : {A : Type ℓ} → (A → Bool) → Option A → Bool
satisfies p none = false
satisfies p (some a) = p a

-- The user's row says that the user is to be paused.
abbrev pub user_pauses : ℤ → Db → ℕ → Bool
user_pauses now db user_id =
    satisfies (must_pause_user now) (first_where (by_id (λ (u : User). u.id) user_id) db.users)

-- The permission's row says that it is to be paused, and the forward goes through its tunnel.
abbrev pub permission_pauses : ℤ → Db → ℕ → Forward → Bool
permission_pauses now db ut_id f =
    satisfies (λ ut. must_pause_user_tunnel now ut && (f.tunnel_id == ut.tunnel_id))
      (first_where (by_id (λ (t : UserTunnel). t.id) ut_id) db.user_tunnels)

-- The forwards that a report for this user and permission pauses.
abbrev pub is_stopped : ℤ → Db → ℕ → ℕ → Forward → Bool
is_stopped now db user_id ut_id f =
    (f.user_id == user_id)
    && (user_pauses now db user_id || permission_pauses now db ut_id f)
    && has_tunnel db f

abbrev stopped_by_user : ℤ → Db → ℕ → Forward → Bool
stopped_by_user now db user_id f =
    (f.user_id == user_id) && user_pauses now db user_id && has_tunnel db f

abbrev stopped_by_permission : ℤ → Db → ℕ → ℕ → Forward → Bool
stopped_by_permission now db user_id ut_id f =
    (f.user_id == user_id) && permission_pauses now db ut_id f && has_tunnel db f

abbrev pub pause_those : (Forward → Bool) → Db → Db
pause_those p db = with_forwards db (update_where p (set_status paused) db.forwards)

module _ (keys : Keys) (env : Env) where
  pause_user-db :
      (user_id : ℕ) (w : World)
      → Distinct (λ (f : Forward). f.id) w.db.forwards
      → (pause_all_user_services keys env (decimal user_id) w).db
        ≡ pause_those (λ f. (f.user_id == user_id) && has_tunnel w.db f) w.db
  unfolding pause_all_user_services
  pause_user-db user_id w d =
      ap (λ fs. (pause_forward_services env fs w).db)
        (find_where-cong _ (λ f. f.user_id == user_id) w.db.forwards
          (λ f. keys.column_decimal user_id f.user_id))
      ∙ pause_found env w.db (λ f. f.user_id == user_id) w.db.forwards w d refl

  pause_permission-db :
      (tunnel_id user_id : ℕ) (w : World)
      → Distinct (λ (f : Forward). f.id) w.db.forwards
      → (pause_specific_forward keys env tunnel_id (decimal user_id) w).db
        ≡ pause_those
            (λ f. (f.tunnel_id == tunnel_id) && (f.user_id == user_id) && has_tunnel w.db f)
            w.db
  unfolding pause_specific_forward
  pause_permission-db tunnel_id user_id w d =
      ap (λ fs. (pause_forward_services env fs w).db)
        (find_where-cong _ (λ f. (f.tunnel_id == tunnel_id) && (f.user_id == user_id)) w.db.forwards
          (λ f. ap (λ b. (f.tunnel_id == tunnel_id) && b) (keys.column_decimal user_id f.user_id)))
      ∙ pause_found env w.db (λ f. (f.tunnel_id == tunnel_id) && (f.user_id == user_id))
          w.db.forwards w d refl

  pause_nobody :
      (p : Forward → Bool) (db : Db) → ((f : Forward) → p f ≡ false) → db ≡ pause_those p db
  pause_nobody p db h =
      ap (with_forwards db) (sym (update_where_none p (set_status paused) db.forwards h))

  limit_user-db :
      (user_id : ℕ) (o : Option User) (w : World)
      → Distinct (λ (f : Forward). f.id) w.db.forwards
      → (limit_user keys env (decimal user_id) o w).db
        ≡ pause_those
            (λ f.
              (f.user_id == user_id) && satisfies (must_pause_user env.now) o && has_tunnel w.db f)
            w.db
  unfolding limit_user
  limit_user-db user_id none w d = pause_nobody _ w.db (λ f. ground arith)
  limit_user-db user_id (some user) w d = elim (Bool-cases (must_pause_user env.now user)) [
    | inl t ↦
        rw (t, limit_user)
          (pause_user-db user_id w d
            ∙ ap (λ fs. with_forwards w.db fs)
                (update_where-cong _ _ (set_status paused) w.db.forwards (λ f. ground arith)))
    | inr n ↦ rw (n, limit_user) (pause_nobody _ w.db (λ f. ground arith))
  ]

  check_user_limits-db :
      (user_id : ℕ) (w : World)
      → Distinct (λ (f : Forward). f.id) w.db.forwards
      → (check_user_limits keys env (decimal user_id) w).db
        ≡ pause_those (stopped_by_user env.now w.db user_id) w.db
  unfolding check_user_limits
  check_user_limits-db user_id w d =
      ap (λ o. (limit_user keys env (decimal user_id) o w).db)
        (first_where-cong _ (by_id (λ (u : User). u.id) user_id) w.db.users
          (λ u. keys.inline_decimal user_id u.id))
      ∙ limit_user-db user_id (first_where (by_id (λ (u : User). u.id) user_id) w.db.users) w d

  limit_user_tunnel-db :
      (user_id : ℕ) (o : Option UserTunnel) (w : World)
      → Distinct (λ (f : Forward). f.id) w.db.forwards
      → (limit_user_tunnel keys env (decimal user_id) o w).db
        ≡ pause_those
            (λ f.
              (f.user_id == user_id)
              && satisfies
                  (λ ut. must_pause_user_tunnel env.now ut && (f.tunnel_id == ut.tunnel_id))
                  o
              && has_tunnel w.db f)
            w.db
  unfolding limit_user_tunnel
  limit_user_tunnel-db user_id none w d = pause_nobody _ w.db (λ f. ground arith)
  limit_user_tunnel-db user_id (some ut) w d =
      elim (Bool-cases (must_pause_user_tunnel env.now ut)) [
        | inl t ↦
            rw (t, limit_user_tunnel)
              (pause_permission-db ut.tunnel_id user_id w d
                ∙ ap (λ fs. with_forwards w.db fs)
                    (update_where-cong _ _ (set_status paused) w.db.forwards
                      (λ f. ground (arith, t))))
        | inr n ↦ rw (n, limit_user_tunnel) (pause_nobody _ w.db (λ f. ground (arith, n)))
      ]

  check_user_tunnel_limits-db :
      (user_id ut_id : ℕ) (w : World)
      → ut_id < 2 ^ 63
      → Distinct (λ (f : Forward). f.id) w.db.forwards
      → (check_user_tunnel_limits keys env (decimal ut_id) (decimal user_id) w).db
        ≡ pause_those (stopped_by_permission env.now w.db user_id ut_id) w.db
  unfolding check_user_tunnel_limits
  check_user_tunnel_limits-db user_id ut_id w h d = rw (parse_id-decimal ut_id h) (
      limit_user_tunnel-db user_id
        (first_where (by_id (λ (t : UserTunnel). t.id) ut_id) w.db.user_tunnels) w d)

  pauses_combine :
      (user_id ut_id : ℕ) (db db' : Db)
      → db' ≡ pause_those (stopped_by_user env.now db user_id) db
      → pause_those (stopped_by_permission env.now db' user_id ut_id) db'
        ≡ pause_those (is_stopped env.now db user_id ut_id) db
  unfolding get_tunnel
  pauses_combine user_id ut_id db db' e = rw e (
      ap (with_forwards db) (
        update_where_compose (stopped_by_user env.now db user_id)
          (stopped_by_permission env.now db user_id ut_id) (set_status paused) db.forwards
          (λ f. refl)
        ∙ update_where-cong
            (λ f.
              stopped_by_user env.now db user_id f
              || stopped_by_permission env.now db user_id ut_id f)
            (is_stopped env.now db user_id ut_id) (set_status paused) db.forwards
            (λ f. ground arith)))

  -- Both checks together pause exactly the forwards that are to be stopped.
  pub enforce_limits-db :
      (user_id ut_id : ℕ) (w : World)
      → 0 < ut_id
      → ut_id < 2 ^ 63
      → Distinct (λ (f : Forward). f.id) w.db.forwards
      → (enforce_limits keys env (decimal user_id) (decimal ut_id) w).db
        ≡ pause_those (is_stopped env.now w.db user_id ut_id) w.db
  unfolding enforce_limits
  enforce_limits-db user_id ut_id w p h d =
      let w' = check_user_limits keys env (decimal user_id) w in
      let user_done = check_user_limits-db user_id w d in
      let d' =
        subst (λ db. Distinct (λ (f : Forward). f.id) db.forwards) (sym user_done)
          (update_where-Distinct (λ (f : Forward). f.id) _ (set_status paused) w.db.forwards
            (λ f. refl) d) in
      rw (not_zero_text ut_id p) (
        check_user_tunnel_limits-db user_id ut_id w' h d'
        ∙ pauses_combine user_id ut_id w.db w'.db user_done)
