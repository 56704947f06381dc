-- ===== src/Flow/Defs.antt =====
-- go-backend/service/flow.go: processFlowData, checkUserLimits, checkUserTunnelLimits and the two
-- pause queries. The result is always the text ok, so the functions return the new state only.
use flux_panel_plus.Prelude.{
  ℤ, pos, eq_ℤ, ltb_ℤ, leb_ℤ, fits, ◌+ℤ◌, add64, mul64, ◌^◌, Bool, true, not, ◌&&◌, Option, none,
  some, List, [], ◌∷◌, ◌==◌, if◌then◌else◌, ◌≡◌, ◌*◌, ◌-◌, ℕ, ltb,
}
use flux_panel_plus.Prelude.Text.{Text, codes, text_eq, split, decimal, parse_decimal}
use flux_panel_plus.Prelude.Table.{first_where, find_where, update_where, by_id}
use flux_panel_plus.Model.{User, UserTunnel, Tunnel, Forward}
use flux_panel_plus.Model.Database.{Db}
use flux_panel_plus.Gost.Commands.{World, Env}
use flux_panel_plus.Pause.Defs.{get_tunnel, pause_forward_services}

-- `dto.FlowDto`
pub record FlowDto : Type 0 where
  pub n : Text
  pub u : ℤ
  pub d : ℤ

-- float64, by bit pattern: the operations that the conversion of a report uses.
pub record Floats : Type 0 where
  pub one : ℕ
  pub of_int : ℤ → ℕ
  pub mul : ℕ → ℕ → ℕ
  pub is_positive : ℕ → Bool
  -- `int64(math.Floor(x))`
  pub floor : ℕ → ℤ

-- How gorm and the database compare a text with an integer column: `DB.First(&row, key)` and
-- `Where("column = ?", key)`. On the decimal print of an id both select that id.
pub record Keys : Type 0 where
  pub inline_key : Text → ℕ → Bool
  pub column_eq : Text → ℕ → Bool
  pub inline_decimal : (i j : ℕ) → inline_key (decimal i) j ≡ (j == i)
  pub column_decimal : (i j : ℕ) → column_eq (decimal i) j ≡ (j == i)

abbrev pub bytes_to_gb : ℤ
bytes_to_gb = pos (1024 * 1024 * 1024)

-- `flow_type` and `traffic_ratio` of the forward's tunnel, or 1 and 1.0.
unfoldable pub billing_of_tunnel : Floats → Option Tunnel → ℤ × ℕ
billing_of_tunnel fl none = (pos 1, fl.one)
billing_of_tunnel fl (some t) = (
  if ltb_ℤ (pos 0) t.flow then t.flow else pos 1,
  if fl.is_positive t.traffic_ratio then t.traffic_ratio else fl.one,
)

unfoldable pub billing : Floats → Db → Forward → ℤ × ℕ
unfolding billing_of_tunnel get_tunnel
billing fl db f =
    if f.tunnel_id == 0 then (pos 1, fl.one) else billing_of_tunnel fl (get_tunnel db f.tunnel_id)

-- `int64(math.Floor(float64(raw) * trafficRatio * float64(flowType)))`
unfoldable pub billed : Floats → ℤ × ℕ → ℤ → ℤ
billed fl (flow_type, ratio) raw =
    fl.floor (fl.mul (fl.mul (fl.of_int raw) ratio) (fl.of_int flow_type))

-- `in_flow = in_flow + d, out_flow = out_flow + u`: the statement fails, and changes nothing, where
-- a sum leaves the column's range.
abbrev pub in_range : ℤ → ℤ → ℤ → ℤ → Bool
in_range i o d u = fits (i +ℤ d) && fits (o +ℤ u)

unfoldable pub bill_forward : ℤ → ℤ → Forward → Forward
bill_forward d u f =
    if in_range f.in_flow f.out_flow d u
    then record f { in_flow = f.in_flow +ℤ d; out_flow = f.out_flow +ℤ u }
    else f

unfoldable pub bill_user : ℤ → ℤ → User → User
bill_user d u r =
    if in_range r.in_flow r.out_flow d u
    then record r { in_flow = r.in_flow +ℤ d; out_flow = r.out_flow +ℤ u }
    else r

unfoldable pub bill_user_tunnel : ℤ → ℤ → UserTunnel → UserTunnel
bill_user_tunnel d u r =
    if in_range r.in_flow r.out_flow d u
    then record r { in_flow = r.in_flow +ℤ d; out_flow = r.out_flow +ℤ u }
    else r

-- `ExpTime > 0 && ExpTime <= time.Now().UnixMilli()`
abbrev pub has_expired : ℤ → ℤ → Bool
has_expired now exp_time = ltb_ℤ (pos 0) exp_time && leb_ℤ exp_time now

-- The user is paused: over the limit, or expired, or not enabled.
unfoldable pub user_over_limit : User → Bool
user_over_limit user =
    not (eq_ℤ user.flow (pos 0))
    && ltb_ℤ (mul64 user.flow bytes_to_gb) (add64 user.in_flow user.out_flow)

unfoldable pub must_pause_user : ℤ → User → Bool
unfolding user_over_limit
must_pause_user now user =
    if user_over_limit user
    then true
    else if has_expired now user.exp_time
    then true
    else not (eq_ℤ user.status (pos 1))

unfoldable pub user_tunnel_over_limit : UserTunnel → Bool
user_tunnel_over_limit ut =
    not (eq_ℤ ut.flow (pos 0)) && leb_ℤ (mul64 ut.flow bytes_to_gb) (add64 ut.in_flow ut.out_flow)

unfoldable pub must_pause_user_tunnel : ℤ → UserTunnel → Bool
unfolding user_tunnel_over_limit
must_pause_user_tunnel now ut =
    if user_tunnel_over_limit ut
    then true
    else if has_expired now ut.exp_time
    then true
    else not (eq_ℤ ut.status (pos 1))

-- `strconv.ParseInt(s, 10, 64)` with its error dropped: 0 where the text is no number, and the
-- greatest int64 where it is too large. No row has a negative id, so -n is read as 0.
abbrev pub clamp_id : Option ℕ → ℕ
clamp_id none = 0
clamp_id (some n) = if ltb n (2 ^ 63) then n else 2 ^ 63 - 1

unfoldable pub parse_id : Text → ℕ
parse_id [] = 0
parse_id (c ∷ s) = clamp_id (if c == b'+' then parse_decimal s else parse_decimal (c ∷ s))

module _ (keys : Keys) (env : Env) where
  unfoldable pub pause_all_user_services : Text → World → World
  unfolding pause_forward_services
  pause_all_user_services user_id w =
      pause_forward_services env (find_where (λ f. keys.column_eq user_id f.user_id) w.db.forwards)
        w

  unfoldable pub pause_specific_forward : ℕ → Text → World → World
  unfolding pause_forward_services
  pause_specific_forward tunnel_id user_id w =
      pause_forward_services env
        (find_where (λ f. (f.tunnel_id == tunnel_id) && keys.column_eq user_id f.user_id)
          w.db.forwards)
        w

  -- The body of `checkUserLimits` behind its query, whose result is none for a missing row.
  unfoldable pub limit_user : Text → Option User → World → World
  unfolding must_pause_user pause_all_user_services
  limit_user user_id none w = w
  limit_user user_id (some user) w =
      if must_pause_user env.now user then pause_all_user_services user_id w else w

  unfoldable pub check_user_limits : Text → World → World
  unfolding limit_user
  check_user_limits user_id w =
      limit_user user_id (first_where (λ u. keys.inline_key user_id u.id) w.db.users) w

  unfoldable pub limit_user_tunnel : Text → Option UserTunnel → World → World
  unfolding must_pause_user_tunnel pause_specific_forward
  limit_user_tunnel user_id none w = w
  limit_user_tunnel user_id (some ut) w =
      if must_pause_user_tunnel env.now ut then pause_specific_forward ut.tunnel_id user_id w else w

  unfoldable pub check_user_tunnel_limits : Text → Text → World → World
  unfolding limit_user_tunnel parse_id
  check_user_tunnel_limits ut_id user_id w =
      limit_user_tunnel user_id
        (first_where (by_id (λ ut. ut.id) (parse_id ut_id)) w.db.user_tunnels) w

  -- The three counters.
  unfoldable pub bill_all : Text → Text → Text → ℤ → ℤ → World → World
  unfolding bill_forward bill_user bill_user_tunnel
  bill_all forward_id user_id ut_id d u w = record w {
    db = record (w.db) {
      forwards =
          update_where (λ f. keys.column_eq forward_id f.id) (bill_forward d u) w.db.forwards;
      users = update_where (λ r. keys.column_eq user_id r.id) (bill_user d u) w.db.users;
      user_tunnels =
          if text_eq ut_id (codes "0")
          then w.db.user_tunnels
          else update_where (λ r. keys.column_eq ut_id r.id) (bill_user_tunnel d u)
              w.db.user_tunnels;
    };
  }

  unfoldable pub enforce_limits : Text → Text → World → World
  unfolding check_user_limits check_user_tunnel_limits
  enforce_limits user_id ut_id w =
      if text_eq ut_id (codes "0")
      then w
      else check_user_tunnel_limits ut_id user_id (check_user_limits user_id w)

  -- What follows the forward's query, whose result is none for a missing row.
  unfoldable pub process_flow_row :
      Floats → Text → Text → Text → ℤ → ℤ → Option Forward → World → World
  unfolding billing billed bill_all enforce_limits
  process_flow_row fl forward_id user_id ut_id raw_u raw_d none w = w
  process_flow_row fl forward_id user_id ut_id raw_u raw_d (some f) w =
      let rate = billing fl w.db f in
      enforce_limits user_id ut_id
        (bill_all forward_id user_id ut_id (billed fl rate raw_d) (billed fl rate raw_u) w)

  unfoldable pub process_flow_parts : Floats → List Text → ℤ → ℤ → World → World
  unfolding process_flow_row
  process_flow_parts fl (forward_id ∷ user_id ∷ ut_id ∷ rest) raw_u raw_d w =
      process_flow_row fl forward_id user_id ut_id raw_u raw_d
        (first_where (λ f. keys.inline_key forward_id f.id) w.db.forwards) w
  process_flow_parts fl parts raw_u raw_d w = w

  -- `processFlowData`, and the reports that `ProcessFlowUpload` passes to it.
  unfoldable pub process_flow_data : Floats → FlowDto → World → World
  unfolding process_flow_parts
  process_flow_data fl flow w = process_flow_parts fl (split b'_' flow.n) flow.u flow.d w
