-- ===== src/Model/Clients.antt =====
-- go-backend/model: Xray inbounds and clients.
use flux_panel_plus.Prelude.{ℕ, ℤ, Option}
use flux_panel_plus.Prelude.Text.{Text}

pub record XrayClient : Type 0 where
  pub id : ℕ
  pub inbound_id : ℕ
  pub user_id : ℕ
  pub email : Text
  pub uuid_or_password : Text
  pub flow : Text
  pub alter_id : ℤ
  pub total_traffic : ℤ
  pub up_traffic : ℤ
  pub down_traffic : ℤ
  pub exp_time : Option ℤ
  pub limit_ip : ℤ
  pub reset : ℤ
  pub enable : ℤ
  pub remark : Text
  pub created_time : ℤ
  pub updated_time : ℤ

pub record XrayInbound : Type 0 where
  pub id : ℕ
  pub node_id : ℕ
  pub user_id : ℕ
  pub tag : Text
  pub protocol : Text
  pub listen : Text
  pub port : ℕ
  pub settings_json : Text
  pub stream_settings_json : Text
  pub sniffing_json : Text
  pub remark : Text
  pub custom_entry : Text
  pub enable : ℤ
  pub created_time : ℤ
  pub updated_time : ℤ
