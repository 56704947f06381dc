-- ===== src/Tests/Rows.antt =====
-- One small panel: a user with a permission for a tunnel between two nodes, and a forward on it.
use flux_panel_plus.Prelude.{
  ℕ, pos, pos_part, ◌*◌, ◌==◌, ==_iff, ◌≡◌, sym, ap, ◌∙◌, true, false, not, none, some, [], ◌∷◌,
  arith, Bool-cases, inl, inr,
}
use flux_panel_plus.Prelude.Text.{
  codes, text_eq, text_eq→eq, text_eq_refl, decimal, decimal-injective,
}
use flux_panel_plus.Model.{User, UserTunnel, Tunnel, Forward, Node}
use flux_panel_plus.Model.Database.{Db}
use flux_panel_plus.Gost.Commands.{World, Env}
use flux_panel_plus.Flow.Defs.{Floats, Keys}

abbrev pub alice : User
alice = record {
  id = 7;
  user = codes "alice";
  pwd = [];
  role_id = pos 1;
  exp_time = pos 0;
  flow = pos 1;
  in_flow = pos (1024 * 1024 * 1024);
  out_flow = pos 0;
  xray_flow = pos 0;
  xray_in_flow = pos 0;
  xray_out_flow = pos 0;
  flow_reset_time = pos 0;
  flow_reset_type = pos 1;
  flow_reset_day = pos 31;
  num = pos 5;
  gost_enabled = pos 1;
  xray_enabled = pos 1;
  sub_token = [];
  telegram_chat_id = pos 0;
  created_time = pos 0;
  updated_time = pos 0;
  status = pos 1;
}

abbrev pub pass : UserTunnel
pass = record {
  id = 3;
  user_id = 7;
  tunnel_id = 2;
  speed_id = none;
  num = pos 2;
  flow = pos 0;
  in_flow = pos 5;
  out_flow = pos 5;
  flow_reset_time = pos 0;
  flow_reset_type = pos 2;
  flow_reset_day = pos 1;
  exp_time = pos 0;
  status = pos 1;
}

abbrev pub tunnel : Tunnel
tunnel = record {
  id = 2;
  name = codes "line";
  traffic_ratio = 1;
  in_node_id = 5;
  in_ip = codes "192.0.2.5";
  out_node_id = 6;
  out_ip = codes "192.0.2.6";
  type = pos 2;
  protocol = codes "tls";
  flow = pos 2;
  tcp_listen_addr = codes "0.0.0.0";
  udp_listen_addr = codes "0.0.0.0";
  interface_name = [];
  created_time = pos 0;
  updated_time = pos 0;
  status = pos 1;
  inx = pos 0;
}

abbrev pub forward : Forward
forward = record {
  id = 1;
  user_id = 7;
  user_name = codes "alice";
  name = codes "web";
  tunnel_id = 2;
  route_id = 0;
  in_port = 1000;
  out_port = 2000;
  remote_addr = codes "198.51.100.1:80";
  strategy = codes "fifo";
  listen_ip = [];
  interface_name = [];
  in_flow = pos 0;
  out_flow = pos 0;
  created_time = pos 0;
  updated_time = pos 0;
  status = pos 1;
  inx = pos 1;
}

abbrev pub node : ℕ → (first last : ℕ) → Node
node id first last = record {
  id = id;
  name = codes "node";
  secret = codes "secret";
  ip = codes "192.0.2.1";
  entry_ips = [];
  server_ip = codes "192.0.2.1";
  port_sta = first;
  port_end = last;
  version = [];
  http = pos 0;
  tls = pos 0;
  socks = pos 0;
  xray_enabled = pos 0;
  xray_version = [];
  xray_status = pos 0;
  created_time = pos 0;
  updated_time = pos 0;
  status = pos 1;
  inx = pos 0;
  group_name = [];
  disguise_name = [];
  xray_disguise_name = [];
}

abbrev pub sample : Db
sample = record {
  users = alice ∷ [];
  user_tunnels = pass ∷ [];
  user_nodes = [];
  tunnels = tunnel ∷ [];
  forwards = forward ∷ [];
  nodes = node 5 1000 1002 ∷ node 6 2000 2002 ∷ [];
  routes = [];
  route_hops = [];
  route_ports = [];
  groups = [];
  members = [];
  domains = [];
  providers = [];
  xray_clients = [];
  xray_inbounds = [];
  xray_certs = [];
  speed_limits = [];
  statistics_flows = [];
  statistics_user_flows = [];
}

abbrev pub world : World
world = record { db = sample; sent = [] }

-- Every node is online and answers `OK`.
abbrev pub online : Env
online = record {
  is_node_online = λ n. true;
  answer = λ s. some (codes "OK");
  should_sniff_node = λ n. false;
  now = pos 100000;
}

-- Only node 6 is online.
abbrev pub half_online : Env
half_online = record online { is_node_online = λ n. n == 6 }

pub text_eq-decimal : (i j : ℕ) → text_eq (decimal i) (decimal j) ≡ (j == i)
text_eq-decimal i j = elim (Bool-cases (j == i)) [
  | inl t ↦
      ap (λ k. text_eq (decimal i) (decimal k)) ((==_iff j i).0 t)
      ∙ text_eq_refl (decimal i)
      ∙ sym t
  | inr n ↦ elim (Bool-cases (text_eq (decimal i) (decimal j))) [
    | inr e ↦ e ∙ sym n
    | inl e ↦
        absurd (ground (arith, n, decimal-injective i j (text_eq→eq (decimal i) (decimal j) e)))
  ]
]

-- A text selects the id that it is the decimal print of.
abbrev pub keys : Keys
keys = record {
  inline_key = λ s j. text_eq s (decimal j);
  column_eq = λ s j. text_eq s (decimal j);
  inline_decimal = text_eq-decimal;
  column_decimal = text_eq-decimal;
}

-- Whole numbers in place of floating-point ones.
abbrev pub whole : Floats
whole = record {
  one = 1;
  of_int = λ i. pos_part i;
  mul = λ a b. a * b;
  is_positive = λ a. not (a == 0);
  floor = λ a. pos a;
}
