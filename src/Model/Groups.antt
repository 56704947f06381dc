-- ===== src/Model/Groups.antt =====
-- go-backend/model: groups of nodes and their DNS records.
use flux_panel_plus.Prelude.{ℕ, ℤ}
use flux_panel_plus.Prelude.Text.{Text}

pub record NodeGroup : Type 0 where
  pub id : ℕ
  pub name : Text
  pub type : Text
  pub switch_back : ℤ
  pub active_member_id : ℕ
  pub last_switch_time : ℤ
  pub created_time : ℤ
  pub updated_time : ℤ
  pub status : ℤ
  pub inx : ℤ

pub record GroupMember : Type 0 where
  pub id : ℕ
  pub group_id : ℕ
  pub node_id : ℕ
  pub member_ip : Text
  pub priority : ℤ
  pub created_time : ℤ
  pub updated_time : ℤ

pub record DdnsDomain : Type 0 where
  pub id : ℕ
  pub provider_id : ℕ
  pub group_id : ℕ
  pub domain : Text
  pub record_name : Text
  pub record_type : Text
  pub auto_resolve : ℤ
  pub current_record : Text
  pub current_member_id : ℕ
  pub created_time : ℤ
  pub updated_time : ℤ
  pub status : ℤ

pub record DdnsProvider : Type 0 where
  pub id : ℕ
  pub name : Text
  pub type : Text
  pub credential : Text
  pub created_time : ℤ
  pub updated_time : ℤ
  pub status : ℤ
