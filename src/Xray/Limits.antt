-- ===== src/Xray/Limits.antt =====
-- Which clients are cut off when a user's Xray traffic is used up.
use flux_panel_plus.Prelude.{
  ℕ, ◌≡◌, refl, sym, ap, ◌∙◌, Bool, false, ◌&&◌, Option, none, some, List, [], ◌∷◌, arith,
  Bool-cases, Option-cases, inl, inr,
}
use flux_panel_plus.Prelude.Table.{
  find_where, update_where, update_where_none, update_each, update_each-find, by_id, for_each,
  Distinct,
}
use flux_panel_plus.Model.{User, XrayClient}
use flux_panel_plus.Model.Database.{Db}
use flux_panel_plus.Gost.Commands.{World, Env, send_msg}
use flux_panel_plus.Permissions.Defs.{get_user}
use flux_panel_plus.Xray.Defs.{
  disable_client, disable_xray_client, get_inbound, remove_client_of, cut_client, is_enabled_of,
  limit_xray_user, check_user_xray_limits, xray_over_limit,
}

abbrev pub with_clients : Db → List XrayClient → Db
with_clients db cs = record db { xray_clients = cs }

-- The user's row exists and is over its limit.
abbrev pub user_used_up : Option User → Bool
user_used_up none = false
user_used_up (some user) = xray_over_limit user

module _ (env : Env) where
  remove_client_of-db : (c : XrayClient) (w : World) → (remove_client_of env c w).db ≡ w.db
  unfolding remove_client_of send_msg
  remove_client_of-db c w = elim (Option-cases (get_inbound w.db c.inbound_id)) [
    | inl e ↦ ground (arith, e)
    | inr (i, e) ↦ ground (arith, e)
  ]

  cut_loop-db :
      (db : Db) (cs rows : List XrayClient) (w : World)
      → w.db ≡ with_clients db rows
      → (for_each (cut_client env) cs w).db
        ≡ with_clients db (update_each (λ c. c.id) disable_client cs rows)
  unfolding cut_client
  cut_loop-db db [] rows w e = e
  cut_loop-db db (c ∷ cs) rows w e =
      cut_loop-db db cs (update_where (by_id (λ r. r.id) c.id) disable_client rows)
        (cut_client env c w)
        (remove_client_of-db c (disable_xray_client c.id w)
          ∙ ap
              (λ (b : Db).
                with_clients b
                  (update_where (by_id (λ r. r.id) c.id) disable_client b.xray_clients))
              e)

  limit_xray_user-db :
      (user_id : ℕ) (o : Option User) (w : World)
      → Distinct (λ (c : XrayClient). c.id) w.db.xray_clients
      → (limit_xray_user env user_id o w).db
        ≡ with_clients w.db (
            update_where
              (λ c. user_used_up o && is_enabled_of user_id c)
              disable_client
              w.db.xray_clients)
  unfolding limit_xray_user
  limit_xray_user-db user_id none w d =
      ap (with_clients w.db)
        (sym (update_where_none (λ c. false) disable_client w.db.xray_clients (λ c. refl)))
  limit_xray_user-db user_id (some user) w d = elim (Bool-cases (xray_over_limit user)) [
    | inl t ↦ rw t (
        cut_loop-db w.db (find_where (is_enabled_of user_id) w.db.xray_clients) w.db.xray_clients w
          refl
        ∙ ap (with_clients w.db) (
            update_each-find (λ (c : XrayClient). c.id) (is_enabled_of user_id) disable_client
              w.db.xray_clients (λ c. refl) (λ c. refl) d))
    | inr n ↦ rw n (
        ap (with_clients w.db)
          (sym (update_where_none (λ c. false) disable_client w.db.xray_clients (λ c. refl))))
  ]

  -- On distinct client ids, the check of a user's Xray limit disables exactly the enabled clients of
  -- that user if the user's row says that the limit is reached, no client if not, and changes
  -- nothing else in the database.
  pub check_user_xray_limits-db :
      (user_id : ℕ) (w : World)
      → Distinct (λ (c : XrayClient). c.id) w.db.xray_clients
      → (check_user_xray_limits env user_id w).db
        ≡ with_clients w.db (
            update_where
              (λ c. user_used_up (get_user w.db user_id) && is_enabled_of user_id c)
              disable_client
              w.db.xray_clients)
  unfolding check_user_xray_limits
  check_user_xray_limits-db user_id w d = limit_xray_user-db user_id (get_user w.db user_id) w d
