-- ===== src/Xray/Defs.antt =====
-- go-backend/service/flow.go: ProcessXrayFlowUpload behind its decoding, and checkUserXrayLimits.
use flux_panel_plus.Prelude.{
  ℕ, ℤ, pos, eq_ℤ, ltb_ℤ, leb_ℤ, ◌+ℤ◌, add64, mul64, Bool, not, ◌&&◌, ◌||◌, Option, none, some,
  List, ◌==◌, if◌then◌else◌,
}
use flux_panel_plus.Prelude.Text.{Text, is_empty}
use flux_panel_plus.Prelude.Table.{first_where, find_where, update_where, by_id, for_each}
use flux_panel_plus.Model.{User, XrayClient, XrayInbound}
use flux_panel_plus.Model.Database.{Db}
use flux_panel_plus.Gost.Commands.{World, Env, xray_remove_client}
use flux_panel_plus.Permissions.Defs.{get_user}
use flux_panel_plus.Flow.Defs.{bytes_to_gb, in_range}

-- One client of a report.
pub record XrayReport : Type 0 where
  pub email : Text
  pub u : ℤ
  pub d : ℤ

abbrev pub disable_client : XrayClient → XrayClient
disable_client c = record c { enable = pos 0 }

abbrev pub disable_xray_client : ℕ → World → World
disable_xray_client id w = record w {
  db = record (w.db) {
    xray_clients = update_where (by_id (λ r. r.id) id) disable_client w.db.xray_clients;
  };
}

unfoldable pub get_inbound : Db → ℕ → Option XrayInbound
get_inbound db id = first_where (by_id (λ (i : XrayInbound). i.id) id) db.xray_inbounds

-- `up_traffic + u`, `down_traffic + d`: the statement fails where a sum leaves the column's range.
unfoldable pub bill_client : ℤ → ℤ → XrayClient → XrayClient
bill_client d u c =
    if in_range c.down_traffic c.up_traffic d u
    then record c { up_traffic = c.up_traffic +ℤ u; down_traffic = c.down_traffic +ℤ d }
    else c

unfoldable pub bill_xray_user : ℤ → ℤ → User → User
bill_xray_user d u r =
    if in_range r.xray_in_flow r.xray_out_flow d u
    then record r { xray_in_flow = r.xray_in_flow +ℤ d; xray_out_flow = r.xray_out_flow +ℤ u }
    else r

unfoldable pub xray_over_limit : User → Bool
xray_over_limit user =
    not (eq_ℤ user.xray_flow (pos 0))
    && leb_ℤ (mul64 user.xray_flow bytes_to_gb) (add64 user.xray_in_flow user.xray_out_flow)

unfoldable pub client_over_limit : ℤ → XrayClient → Bool
client_over_limit total c = leb_ℤ total (add64 c.up_traffic c.down_traffic) && eq_ℤ c.enable (pos 1)

abbrev pub is_enabled_of : ℕ → XrayClient → Bool
is_enabled_of user_id c = (c.user_id == user_id) && eq_ℤ c.enable (pos 1)

module _ (env : Env) where
  -- The client is taken off its node where its inbound exists.
  unfoldable pub remove_client_of : XrayClient → World → World
  unfolding get_inbound xray_remove_client
  remove_client_of c w = elim (get_inbound w.db c.inbound_id) [
    | none ↦ w
    | some inbound ↦ (xray_remove_client env inbound.node_id inbound.tag c.email w).1
  ]

  -- The body of the loop over a user's clients.
  unfoldable pub cut_client : XrayClient → World → World
  unfolding remove_client_of
  cut_client c w = remove_client_of c (disable_xray_client c.id w)

  unfoldable pub limit_xray_user : ℕ → Option User → World → World
  unfolding xray_over_limit cut_client
  limit_xray_user user_id none w = w
  limit_xray_user user_id (some user) w =
      if xray_over_limit user
      then for_each cut_client (find_where (is_enabled_of user_id) w.db.xray_clients) w
      else w

  unfoldable pub check_user_xray_limits : ℕ → World → World
  unfolding get_user limit_xray_user
  check_user_xray_limits user_id w = limit_xray_user user_id (get_user w.db user_id) w

  -- The client's own limit, tested on the row as it is after the billing.
  unfoldable pub limit_client : XrayClient → Option XrayClient → World → World
  unfolding client_over_limit remove_client_of
  limit_client c none w = w
  limit_client c (some updated) w =
      if ltb_ℤ (pos 0) c.total_traffic && client_over_limit c.total_traffic updated
      then remove_client_of c (disable_xray_client updated.id w)
      else w

  unfoldable pub bill_xray : XrayClient → XrayReport → World → World
  unfolding bill_client bill_xray_user
  bill_xray c report w = record w {
    db = record (w.db) {
      xray_clients =
          update_where (by_id (λ r. r.id) c.id) (bill_client report.d report.u) w.db.xray_clients;
      users =
          update_where (by_id (λ r. r.id) c.user_id) (bill_xray_user report.d report.u) w.db.users;
    };
  }

  -- What follows the client's query, whose result is none for an unknown address.
  unfoldable pub process_xray_row : XrayReport → Option XrayClient → World → World
  unfolding bill_xray check_user_xray_limits limit_client
  process_xray_row report none w = w
  process_xray_row report (some c) w =
      let w' = check_user_xray_limits c.user_id (bill_xray c report w) in
      limit_client c (first_where (by_id (λ (r : XrayClient). r.id) c.id) w'.db.xray_clients) w'

  -- `email = ?` under the database's collation, which is a parameter.
  unfoldable pub process_xray_report : (Text → Text → Bool) → XrayReport → World → World
  unfolding process_xray_row
  process_xray_report same_email report w =
      if is_empty report.email || (eq_ℤ report.u (pos 0) && eq_ℤ report.d (pos 0))
      then w
      else process_xray_row report
          (first_where (λ (r : XrayClient). same_email r.email report.email) w.db.xray_clients) w

  unfoldable pub process_xray_flow : (Text → Text → Bool) → List XrayReport → World → World
  unfolding process_xray_report
  process_xray_flow same_email reports w = for_each (process_xray_report same_email) reports w
