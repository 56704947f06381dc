-- ===== src/Model/Limits.antt =====
-- go-backend/model: speed limits, statistics and certificates.
use flux_panel_plus.Prelude.{ℕ, ℤ, Option}
use flux_panel_plus.Prelude.Text.{Text}

pub record SpeedLimit : Type 0 where
  pub id : ℕ
  pub name : Text
  pub speed : ℤ
  pub tunnel_id : ℕ
  pub tunnel_name : Text
  pub created_time : ℤ
  pub updated_time : ℤ
  pub status : ℤ

pub record StatisticsFlow : Type 0 where
  pub id : ℕ
  pub user_id : ℕ
  pub flow : ℤ
  pub total_flow : ℤ
  pub time : Text
  pub created_time : ℤ

pub record StatisticsUserFlow : Type 0 where
  pub id : ℕ
  pub user_id : ℕ
  pub gost_flow : ℤ
  pub xray_flow : ℤ
  pub record_time : ℤ

pub record XrayTlsCert : Type 0 where
  pub id : ℕ
  pub node_id : ℕ
  pub domain : Text
  pub public_key : Text
  pub private_key : Text
  pub auto_renew : ℤ
  pub acme_enabled : ℤ
  pub acme_email : Text
  pub challenge_type : Text
  pub dns_provider : Text
  pub dns_config : Text
  pub last_renew_time : Option ℤ
  pub renew_error : Text
  pub expire_time : Option ℤ
  pub created_time : ℤ
  pub updated_time : ℤ
