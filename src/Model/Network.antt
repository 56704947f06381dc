-- ===== src/Model/Network.antt =====
-- go-backend/model: nodes, tunnels, routes and forwards.
use flux_panel_plus.Prelude.{ℕ, ℤ}
use flux_panel_plus.Prelude.Text.{Text}

pub record Tunnel : Type 0 where
  pub id : ℕ
  pub name : Text
  pub traffic_ratio : ℕ
  pub in_node_id : ℕ
  pub in_ip : Text
  pub out_node_id : ℕ
  pub out_ip : Text
  pub type : ℤ
  pub protocol : Text
  pub flow : ℤ
  pub tcp_listen_addr : Text
  pub udp_listen_addr : Text
  pub interface_name : Text
  pub created_time : ℤ
  pub updated_time : ℤ
  pub status : ℤ
  pub inx : ℤ

pub record Forward : Type 0 where
  pub id : ℕ
  pub user_id : ℕ
  pub user_name : Text
  pub name : Text
  pub tunnel_id : ℕ
  pub route_id : ℕ
  pub in_port : ℕ
  pub out_port : ℕ
  pub remote_addr : Text
  pub strategy : Text
  pub listen_ip : Text
  pub interface_name : Text
  pub in_flow : ℤ
  pub out_flow : ℤ
  pub created_time : ℤ
  pub updated_time : ℤ
  pub status : ℤ
  pub inx : ℤ

pub record Node : Type 0 where
  pub id : ℕ
  pub name : Text
  pub secret : Text
  pub ip : Text
  pub entry_ips : Text
  pub server_ip : Text
  pub port_sta : ℕ
  pub port_end : ℕ
  pub version : Text
  pub http : ℤ
  pub tls : ℤ
  pub socks : ℤ
  pub xray_enabled : ℤ
  pub xray_version : Text
  pub xray_status : ℤ
  pub created_time : ℤ
  pub updated_time : ℤ
  pub status : ℤ
  pub inx : ℤ
  pub group_name : Text
  pub disguise_name : Text
  pub xray_disguise_name : Text

pub record Route : Type 0 where
  pub id : ℕ
  pub name : Text
  pub protocol : Text
  pub tcp_listen_addr : Text
  pub udp_listen_addr : Text
  pub interface_name : Text
  pub created_time : ℤ
  pub updated_time : ℤ
  pub status : ℤ
  pub inx : ℤ

pub record RouteHop : Type 0 where
  pub id : ℕ
  pub route_id : ℕ
  pub hop_order : ℕ
  pub node_id : ℕ
  pub node_ip : Text
  pub created_time : ℤ
  pub updated_time : ℤ

pub record ForwardRoutePort : Type 0 where
  pub id : ℕ
  pub forward_id : ℕ
  pub route_id : ℕ
  pub hop_order : ℕ
  pub node_id : ℕ
  pub relay_port : ℕ
  pub created_time : ℤ
  pub updated_time : ℤ
