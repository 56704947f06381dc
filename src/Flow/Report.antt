-- ===== src/Flow/Report.antt =====
-- A whole traffic report, from the service's name to the tables.
use flux_panel_plus.Prelude.{
  ℕ, ℤ, ◌^◌, ◌<◌, ◌≡◌, refl, sym, ap, subst, ◌∙◌, true, Option, none, some, ◌∷◌, ◌++◌, arith,
}
use flux_panel_plus.Prelude.Text.{Text, codes, text_eq, decimal}
use flux_panel_plus.Prelude.Table.{
  first_where, first_where-cong, update_where, update_where-cong, update_where-Distinct, by_id,
  Distinct,
}
use flux_panel_plus.Model.{Forward}
use flux_panel_plus.Model.Database.{Db}
use flux_panel_plus.Gost.Names.{service_name}
use flux_panel_plus.Gost.Commands.{World, Env}
use flux_panel_plus.Flow.Defs.{
  FlowDto, Floats, Keys, billing, billed, bill_forward, bill_user, bill_user_tunnel, bill_all,
  enforce_limits, process_flow_row, process_flow_data,
}
use flux_panel_plus.Flow.Limits.{split-service_name, not_zero_text}
use flux_panel_plus.Flow.Enforcement.{is_stopped, pause_those, enforce_limits-db}

abbrev pub forward_row : Db → ℕ → Option Forward
forward_row db id = first_where (by_id (λ (f : Forward). f.id) id) db.forwards

-- The tables behind the billing statements of a report for a forward of a user's permission.
abbrev pub billed_db : ℕ → ℕ → ℕ → ℤ → ℤ → Db → Db
billed_db forward_id user_id ut_id d u db = record db {
  forwards = update_where (by_id (λ f. f.id) forward_id) (bill_forward d u) db.forwards;
  users = update_where (by_id (λ r. r.id) user_id) (bill_user d u) db.users;
  user_tunnels = update_where (by_id (λ r. r.id) ut_id) (bill_user_tunnel d u) db.user_tunnels;
}

-- The same for a forward with no permission, such as an administrator's.
abbrev pub billed_db_unlimited : ℕ → ℕ → ℤ → ℤ → Db → Db
billed_db_unlimited forward_id user_id d u db = record db {
  forwards = update_where (by_id (λ f. f.id) forward_id) (bill_forward d u) db.forwards;
  users = update_where (by_id (λ r. r.id) user_id) (bill_user d u) db.users;
}

-- A report of the service for a forward, under the name that its node gives it.
abbrev pub report_of : ℕ → ℕ → ℕ → Text → ℤ → ℤ → FlowDto
report_of forward_id user_id ut_id rest u d = record {
  n = service_name forward_id user_id ut_id ++ b'_' ∷ rest;
  u = u;
  d = d;
}

bill_forward-id : (d u : ℤ) (f : Forward) → (bill_forward d u f).id ≡ f.id
unfolding bill_forward
bill_forward-id d u f = ground arith

zero_text : text_eq (decimal 0) (codes "0") ≡ true
unfolding decimal
zero_text = refl

module _ (keys : Keys) (env : Env) (fl : Floats) where
  bill_all-db :
      (forward_id user_id ut_id : ℕ) (d u : ℤ) (w : World)
      → 0 < ut_id
      → (bill_all keys env (decimal forward_id) (decimal user_id) (decimal ut_id) d u w).db
        ≡ billed_db forward_id user_id ut_id d u w.db
  unfolding bill_all
  bill_all-db forward_id user_id ut_id d u w h = rw (not_zero_text ut_id h) λ i. record (w.db) {
    forwards =
        update_where-cong _ (by_id (λ f. f.id) forward_id) (bill_forward d u) w.db.forwards
          (λ f. keys.column_decimal forward_id f.id) i;
    users =
        update_where-cong _ (by_id (λ r. r.id) user_id) (bill_user d u) w.db.users
          (λ f. keys.column_decimal user_id f.id) i;
    user_tunnels =
        update_where-cong _ (by_id (λ r. r.id) ut_id) (bill_user_tunnel d u) w.db.user_tunnels
          (λ f. keys.column_decimal ut_id f.id) i;
  }

  process_flow_row-found :
      (forward_id user_id ut_id : ℕ) (rest : Text) (u d : ℤ) (w : World) {o : Option Forward}
      → forward_row w.db forward_id ≡ o
      → process_flow_data keys env fl (report_of forward_id user_id ut_id rest u d) w
        ≡ process_flow_row keys env fl
            (decimal forward_id)
            (decimal user_id)
            (decimal ut_id)
            u
            d
            o
            w
  unfolding process_flow_data
  process_flow_row-found forward_id user_id ut_id rest u d w found =
      rw (split-service_name forward_id user_id ut_id rest) (
        ap
          (λ o.
            process_flow_row keys env fl (decimal forward_id) (decimal user_id) (decimal ut_id) u d
              o w)
          (first_where-cong _ (by_id (λ (f : Forward). f.id) forward_id) w.db.forwards
              (λ f. keys.inline_decimal forward_id f.id)
            ∙ found))

  -- A report for a forward that exists, of a permission whose id is positive and fits an int64, with
  -- distinct forward ids: its
  -- counts at the rate of the forward's tunnel are added to the forward, the user and the
  -- permission, and then exactly those forwards of the user become paused whose tunnel exists and
  -- where the user, or the permission for their tunnel, must now be paused. Nothing else of the
  -- database changes.
  pub process_flow_data-db :
      (forward_id user_id ut_id : ℕ) (rest : Text) (u d : ℤ) (w : World) {f : Forward}
      → 0 < ut_id
      → ut_id < 2 ^ 63
      → Distinct (λ (f : Forward). f.id) w.db.forwards
      → forward_row w.db forward_id ≡ some f
      → let rate = billing fl w.db f in
        let db = billed_db forward_id user_id ut_id (billed fl rate d) (billed fl rate u) w.db in
        (process_flow_data keys env fl (report_of forward_id user_id ut_id rest u d) w).db
        ≡ pause_those (is_stopped env.now db user_id ut_id) db
  unfolding process_flow_row
  process_flow_data-db forward_id user_id ut_id rest u d w {f} p h pk found =
      let rate = billing fl w.db f in
      let w' =
        bill_all keys env (decimal forward_id) (decimal user_id) (decimal ut_id) (billed fl rate d)
          (billed fl rate u) w in
      let bills = bill_all-db forward_id user_id ut_id (billed fl rate d) (billed fl rate u) w p in
      let pk' =
        subst (λ db. Distinct (λ (f : Forward). f.id) db.forwards) (sym bills)
          (update_where-Distinct (λ (f : Forward). f.id) _
            (bill_forward (billed fl rate d) (billed fl rate u)) w.db.forwards
            (bill_forward-id (billed fl rate d) (billed fl rate u)) pk) in
      ap (λ v. v.db) (process_flow_row-found forward_id user_id ut_id rest u d w found)
      ∙ enforce_limits-db keys env user_id ut_id w' p h pk'
      ∙ ap (λ db. pause_those (is_stopped env.now db user_id ut_id) db) bills

  -- A report for a forward that exists, with no permission: its counts are added to the forward and
  -- the user, and nothing else of the database changes, however far the user is over the limit.
  pub process_flow_data_unlimited :
      (forward_id user_id : ℕ) (rest : Text) (u d : ℤ) (w : World) {f : Forward}
      → forward_row w.db forward_id ≡ some f
      → let rate = billing fl w.db f in
        (process_flow_data keys env fl (report_of forward_id user_id 0 rest u d) w).db
        ≡ billed_db_unlimited forward_id user_id (billed fl rate d) (billed fl rate u) w.db
  unfolding process_flow_row bill_all enforce_limits
  process_flow_data_unlimited forward_id user_id rest u d w {f} found =
      let rate = billing fl w.db f in
      ap (λ v. v.db) (process_flow_row-found forward_id user_id 0 rest u d w found)
      ∙ rw zero_text λ i. record (w.db) {
        forwards =
            update_where-cong _ (by_id (λ f. f.id) forward_id)
              (bill_forward (billed fl rate d) (billed fl rate u)) w.db.forwards
              (λ f. keys.column_decimal forward_id f.id) i;
        users =
            update_where-cong _ (by_id (λ r. r.id) user_id)
              (bill_user (billed fl rate d) (billed fl rate u)) w.db.users
              (λ f. keys.column_decimal user_id f.id) i;
      }

  -- A report for a forward that does not exist changes nothing and sends nothing.
  pub process_flow_data_unknown :
      (forward_id user_id ut_id : ℕ) (rest : Text) (u d : ℤ) (w : World)
      → forward_row w.db forward_id ≡ none
      → process_flow_data keys env fl (report_of forward_id user_id ut_id rest u d) w ≡ w
  unfolding process_flow_row
  process_flow_data_unknown forward_id user_id ut_id rest u d w missing =
      process_flow_row-found forward_id user_id ut_id rest u d w missing
