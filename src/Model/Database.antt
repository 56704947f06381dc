-- ===== src/Model/Database.antt =====
-- The tables that the modelled services read and write. Each list is in primary-key order.
use flux_panel_plus.Prelude.{List}
use flux_panel_plus.Model.Accounts.{User, UserTunnel, UserNode}
use flux_panel_plus.Model.Network.{Tunnel, Forward, Node, Route, RouteHop, ForwardRoutePort}
use flux_panel_plus.Model.Groups.{NodeGroup, GroupMember, DdnsDomain, DdnsProvider}
use flux_panel_plus.Model.Clients.{XrayClient, XrayInbound}
use flux_panel_plus.Model.Limits.{SpeedLimit, StatisticsFlow, StatisticsUserFlow, XrayTlsCert}

pub record Db : Type 0 where
  pub users : List User
  pub user_tunnels : List UserTunnel
  pub user_nodes : List UserNode
  pub tunnels : List Tunnel
  pub forwards : List Forward
  pub nodes : List Node
  pub routes : List Route
  pub route_hops : List RouteHop
  pub route_ports : List ForwardRoutePort
  pub groups : List NodeGroup
  pub members : List GroupMember
  pub domains : List DdnsDomain
  pub providers : List DdnsProvider
  pub xray_clients : List XrayClient
  pub xray_inbounds : List XrayInbound
  pub xray_certs : List XrayTlsCert
  pub speed_limits : List SpeedLimit
  pub statistics_flows : List StatisticsFlow
  pub statistics_user_flows : List StatisticsUserFlow
