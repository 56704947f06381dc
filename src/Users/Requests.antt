-- ===== src/Users/Requests.antt =====
-- go-backend/service/user.go: what CreateUser, UpdateUser and UpdatePassword read of a request and write
-- to a row, and go-backend/pkg/password.go. The hash functions and the ids that the database gives new
-- rows are parameters.
use flux_panel_plus.Prelude.{
  ℕ, suc, ℤ, pos, Bool, true, false, ◌&&◌, ◌||◌, Option, none, List, [], ◌∷◌, ◌++◌, ◌==◌, ltb,
  if◌then◌else◌,
}
use flux_panel_plus.Prelude.Text.{Text, codes, text_eq}
use flux_panel_plus.Prelude.Table.{count_where}
use flux_panel_plus.Model.{User, UserNode}
use flux_panel_plus.Model.Database.{Db}
use flux_panel_plus.Topology.Nodes.{or_old}

-- bcrypt and MD5: the hash of a new password, whether a hash is that of a password, and the old hash
-- of a text.
pub record Hashes : Type 0 where
  pub bcrypt : Text → Text
  pub bcrypt_matches : Text → Text → Bool
  pub md5_hex : Text → Text

abbrev starts_with : Text → Text → Bool
starts_with [] s = true
starts_with (c ∷ p) [] = false
starts_with (c ∷ p) (d ∷ s) = (c == d) && starts_with p s

unfoldable pub is_bcrypt : Text → Bool
is_bcrypt hashed = starts_with (codes "$2a$") hashed || starts_with (codes "$2b$") hashed

unfoldable pub legacy_md5_hash : Hashes → Text → Text
legacy_md5_hash h input = h.md5_hex (input ++ codes "admin_salt_2024")

unfoldable pub check_password : Hashes → Text → Text → Bool
unfolding is_bcrypt legacy_md5_hash
check_password h plain hashed =
    if is_bcrypt hashed
    then h.bcrypt_matches hashed plain
    else text_eq hashed (legacy_md5_hash h plain)

pub record NodePermission : Type 0 where
  pub node_id : ℕ
  pub xray_enabled : Option ℤ
  pub gost_enabled : Option ℤ

pub record UserDto : Type 0 where
  pub user : Text
  pub pwd : Text
  pub flow : ℤ
  pub xray_flow : ℤ
  pub num : ℤ
  pub exp_time : ℤ
  pub flow_reset_type : ℤ
  pub flow_reset_day : ℤ
  pub status : Option ℤ
  pub node_ids : List ℕ
  pub node_permissions : List NodePermission

-- A list that the request leaves out is none.
pub record UserUpdateDto : Type 0 where
  pub id : ℕ
  pub user : Text
  pub pwd : Text
  pub flow : ℤ
  pub xray_flow : ℤ
  pub num : ℤ
  pub exp_time : ℤ
  pub flow_reset_type : ℤ
  pub flow_reset_day : ℤ
  pub status : Option ℤ
  pub node_ids : Option (List ℕ)
  pub node_permissions : Option (List NodePermission)

pub record UpdatePasswordDto : Type 0 where
  pub old_password : Text
  pub new_password : Text
  pub new_username : Text

abbrev pub user_role : ℤ
user_role = pos 1

abbrev pub new_user : Hashes → ℤ → ℕ → UserDto → User
new_user h now id d = record {
  id = id;
  user = d.user;
  pwd = h.bcrypt d.pwd;
  role_id = user_role;
  exp_time = d.exp_time;
  flow = d.flow;
  in_flow = pos 0;
  out_flow = pos 0;
  xray_flow = d.xray_flow;
  xray_in_flow = pos 0;
  xray_out_flow = pos 0;
  flow_reset_time = pos 0;
  flow_reset_type = d.flow_reset_type;
  flow_reset_day = d.flow_reset_day;
  num = d.num;
  gost_enabled = pos 1;
  xray_enabled = pos 1;
  sub_token = [];
  telegram_chat_id = pos 0;
  created_time = now;
  updated_time = now;
  status = or_old (pos 1) d.status;
}

abbrev pub user_node : ℕ → ℕ → NodePermission → UserNode
user_node id user_id p = record {
  id = id;
  user_id = user_id;
  node_id = p.node_id;
  xray_enabled = or_old (pos 1) p.xray_enabled;
  gost_enabled = or_old (pos 1) p.gost_enabled;
}

abbrev pub everything_on : ℕ → NodePermission
everything_on node_id = record { node_id = node_id; xray_enabled = none; gost_enabled = none }

-- `DB.Create`: a second row for one user and node violates the unique index and is dropped.
unfoldable pub insert_user_node : UserNode → List UserNode → List UserNode
insert_user_node n rows =
    if ltb 0 (count_where (λ r. (r.user_id == n.user_id) && (r.node_id == n.node_id)) rows)
    then rows
    else rows ++ n ∷ []

-- The loop over the permissions, from the index i on.
unfoldable pub add_user_nodes :
    (ℕ → ℕ) → ℕ → ℕ → List NodePermission → List UserNode → List UserNode
unfolding insert_user_node
add_user_nodes ids user_id i [] rows = rows
add_user_nodes ids user_id i (p ∷ ps) rows =
    add_user_nodes ids user_id (suc i) ps (insert_user_node (user_node (ids i) user_id p) rows)

abbrev pub all_on : List ℕ → List NodePermission
all_on [] = []
all_on (id ∷ ids) = everything_on id ∷ all_on ids

abbrev pub with_user_nodes : (List UserNode → List UserNode) → Db → Db
with_user_nodes g db = record db { user_nodes = g db.user_nodes }

abbrev pub permissions_or_nodes : List NodePermission → List ℕ → List NodePermission
permissions_or_nodes [] node_ids = all_on node_ids
permissions_or_nodes (p ∷ ps) node_ids = p ∷ ps
