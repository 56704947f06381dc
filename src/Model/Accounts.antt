-- ===== src/Model/Accounts.antt =====
-- go-backend/model: users and what they may use.
use flux_panel_plus.Prelude.{ℕ, ℤ, Option}
use flux_panel_plus.Prelude.Text.{Text}

pub record User : Type 0 where
  pub id : ℕ
  pub user : Text
  pub pwd : Text
  pub role_id : ℤ
  pub exp_time : ℤ
  pub flow : ℤ
  pub in_flow : ℤ
  pub out_flow : ℤ
  pub xray_flow : ℤ
  pub xray_in_flow : ℤ
  pub xray_out_flow : ℤ
  pub flow_reset_time : ℤ
  pub flow_reset_type : ℤ
  pub flow_reset_day : ℤ
  pub num : ℤ
  pub gost_enabled : ℤ
  pub xray_enabled : ℤ
  pub sub_token : Text
  pub telegram_chat_id : ℤ
  pub created_time : ℤ
  pub updated_time : ℤ
  pub status : ℤ

pub record UserTunnel : Type 0 where
  pub id : ℕ
  pub user_id : ℕ
  pub tunnel_id : ℕ
  pub speed_id : Option ℕ
  pub num : ℤ
  pub flow : ℤ
  pub in_flow : ℤ
  pub out_flow : ℤ
  pub flow_reset_time : ℤ
  pub flow_reset_type : ℤ
  pub flow_reset_day : ℤ
  pub exp_time : ℤ
  pub status : ℤ

pub record UserNode : Type 0 where
  pub id : ℕ
  pub user_id : ℕ
  pub node_id : ℕ
  pub xray_enabled : ℤ
  pub gost_enabled : ℤ
