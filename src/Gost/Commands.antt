-- ===== src/Gost/Commands.antt =====
-- go-backend/pkg/gost.go, the exported functions, and WSManager.SendMsg of go-backend/pkg/ws.go.
-- What a connected node answers is not in the repository: it is a parameter, which may depend on
-- every command sent so far. A handler's effects are the database and the commands sent.
use flux_panel_plus.Prelude.{ℕ, ℤ, Bool, Option, none, some, List, [], ◌∷◌, ◌++◌, if◌then◌else◌}
use flux_panel_plus.Prelude.Text.{is_empty, Text, codes, text_eq, contains, decimal}
use flux_panel_plus.Gost.Names.{
  build_multi_ip_service_names, tcp_name, udp_name, tls_name, chains_name,
}
use flux_panel_plus.Gost.Services.{
  Forwarder, Service, Chain, build_forwarder, build_services, build_remote_service,
  build_chain_data,
}
use flux_panel_plus.Model.{Tunnel}
use flux_panel_plus.Model.Database.{Db}

-- The data and the type of a WSCommand.
pub data Command : Type 0 where
  add_limiters : (name limits : Text) → Command
  update_limiters : (name limits : Text) → Command
  delete_limiters : (name : Text) → Command
  add_service : List Service → Command
  update_service : List Service → Command
  update_forwarder : List (Text × Forwarder) → Command
  delete_service : List Text → Command
  pause_service : List Text → Command
  resume_service : List Text → Command
  add_chains : Chain → Command
  update_chains : (name : Text) → Chain → Command
  delete_chains : (name : Text) → Command
  remove_client : (inbound_tag email : Text) → Command
  remove_inbound : (tag : Text) → Command
  set_protocol : (http tls socks : ℤ) → Command

-- A command with the node that it goes to.
pub record Sent : Type 0 where
  pub node_id : ℕ
  pub command : Command

pub record World : Type 0 where
  pub db : Db
  pub sent : List Sent

-- What the services read of the connected nodes, the clock and the configuration. `answer` gives
-- the message of a node's reply to the last command of the list, or none for a timeout.
pub record Env : Type 0 where
  pub is_node_online : ℕ → Bool
  pub answer : List Sent → Option Text
  pub should_sniff_node : ℕ → Bool
  pub now : ℤ

-- An empty message of a reply is read as `OK`.
abbrev pub response : Option Text → Text
response none = codes "timeout"
response (some msg) = if is_empty msg then codes "OK" else msg

-- `SendMsg`: nothing reaches a node without a session. The result is the response's message.
unfoldable pub send_msg : Env → ℕ → Command → World → Text × World
send_msg env node_id c w =
    let sent = w.sent ++ record { node_id = node_id; command = c } ∷ [] in
    if env.is_node_online node_id
    then (response (env.answer sent), record w { sent = sent })
    else (codes "node offline", w)

abbrev pub is_gost_success : Text → Bool
is_gost_success msg = text_eq msg (codes "OK")

-- `strings.Contains(msg, gostNotFoundMsg)`
abbrev pub is_not_found : Text → Bool
is_not_found msg = contains msg (codes "not found")

-- `createLimiterData`: one speed for both directions.
abbrev pub limits_of : Text → Text
limits_of speed = codes "$ " ++ speed ++ codes "MB " ++ speed ++ codes "MB"

module _ (env : Env) (node_id : ℕ) where
  unfoldable pub add_service_command :
      Text → ℕ → Option ℕ → Text → ℤ → Tunnel → Text → Text → World → Text × World
  unfolding build_services send_msg
  add_service_command name in_port limiter remote_addr fwd_type tunnel strategy interface_name =
      send_msg env node_id (
        add_service (
          build_services name in_port limiter remote_addr fwd_type tunnel strategy interface_name
            (env.should_sniff_node node_id)))

  unfoldable pub update_service_command :
      Text → ℕ → Option ℕ → Text → ℤ → Tunnel → Text → Text → World → Text × World
  unfolding build_services send_msg
  update_service_command name in_port limiter remote_addr fwd_type tunnel strategy interface_name =
      send_msg env node_id (
        update_service (
          build_services name in_port limiter remote_addr fwd_type tunnel strategy interface_name
            (env.should_sniff_node node_id)))

  unfoldable pub delete_service_command : Text → World → Text × World
  unfolding send_msg
  delete_service_command name =
      send_msg env node_id (delete_service (tcp_name name ∷ udp_name name ∷ []))

  unfoldable pub delete_service_multi_ip : Text → Text → World → Text × World
  unfolding send_msg
  delete_service_multi_ip name listen_ip =
      send_msg env node_id (delete_service (build_multi_ip_service_names name listen_ip))

  unfoldable pub add_remote_service : Text → ℕ → Text → Text → Text → Text → World → Text × World
  unfolding send_msg
  add_remote_service name out_port remote_addr protocol strategy interface_name =
      send_msg env node_id (
        add_service
          (build_remote_service name out_port remote_addr protocol strategy interface_name ∷ []))

  unfoldable pub update_remote_service : Text → ℕ → Text → Text → Text → Text → World → Text × World
  unfolding send_msg
  update_remote_service name out_port remote_addr protocol strategy interface_name =
      send_msg env node_id (
        update_service
          (build_remote_service name out_port remote_addr protocol strategy interface_name ∷ []))

  unfoldable pub delete_remote_service : Text → World → Text × World
  unfolding send_msg
  delete_remote_service name = send_msg env node_id (delete_service (tls_name name ∷ []))

  unfoldable pub pause_service_command : Text → World → Text × World
  unfolding send_msg
  pause_service_command name =
      send_msg env node_id (pause_service (tcp_name name ∷ udp_name name ∷ []))

  unfoldable pub resume_service_command : Text → World → Text × World
  unfolding send_msg
  resume_service_command name =
      send_msg env node_id (resume_service (tcp_name name ∷ udp_name name ∷ []))

  unfoldable pub pause_service_multi_ip : Text → Text → World → Text × World
  unfolding send_msg
  pause_service_multi_ip name listen_ip =
      send_msg env node_id (pause_service (build_multi_ip_service_names name listen_ip))

  unfoldable pub resume_service_multi_ip : Text → Text → World → Text × World
  unfolding send_msg
  resume_service_multi_ip name listen_ip =
      send_msg env node_id (resume_service (build_multi_ip_service_names name listen_ip))

  unfoldable pub pause_remote_service : Text → World → Text × World
  unfolding send_msg
  pause_remote_service name = send_msg env node_id (pause_service (tls_name name ∷ []))

  unfoldable pub resume_remote_service : Text → World → Text × World
  unfolding send_msg
  resume_remote_service name = send_msg env node_id (resume_service (tls_name name ∷ []))

  unfoldable pub add_chains_command : Text → Text → Text → Text → World → Text × World
  unfolding send_msg
  add_chains_command name remote_addr protocol interface_name =
      send_msg env node_id (add_chains (build_chain_data name remote_addr protocol interface_name))

  unfoldable pub update_chains_command : Text → Text → Text → Text → World → Text × World
  unfolding send_msg
  update_chains_command name remote_addr protocol interface_name =
      send_msg env node_id (
        update_chains (chains_name name)
          (build_chain_data name remote_addr protocol interface_name))

  unfoldable pub delete_chains_command : Text → World → Text × World
  unfolding send_msg
  delete_chains_command name = send_msg env node_id (delete_chains (chains_name name))

  unfoldable pub update_forwarder_command : Text → Text → Text → World → Text × World
  unfolding send_msg
  update_forwarder_command name remote_addr strategy =
      let f = build_forwarder remote_addr strategy in
      send_msg env node_id (update_forwarder ((tcp_name name, f) ∷ (udp_name name, f) ∷ []))

  unfoldable pub update_remote_forwarder : Text → Text → Text → World → Text × World
  unfolding send_msg
  update_remote_forwarder name remote_addr strategy =
      send_msg env node_id
        (update_forwarder ((tls_name name, build_forwarder remote_addr strategy) ∷ []))

  unfoldable pub add_limiters_command : ℕ → Text → World → Text × World
  unfolding send_msg
  add_limiters_command name speed =
      send_msg env node_id (add_limiters (decimal name) (limits_of speed))

  unfoldable pub update_limiters_command : ℕ → Text → World → Text × World
  unfolding send_msg
  update_limiters_command name speed =
      send_msg env node_id (update_limiters (decimal name) (limits_of speed))

  unfoldable pub delete_limiters_command : ℕ → World → Text × World
  unfolding send_msg
  delete_limiters_command name = send_msg env node_id (delete_limiters (decimal name))

  unfoldable pub xray_remove_inbound : Text → World → Text × World
  unfolding send_msg
  xray_remove_inbound tag = send_msg env node_id (remove_inbound tag)

  unfoldable pub xray_remove_client : Text → Text → World → Text × World
  unfolding send_msg
  xray_remove_client tag email = send_msg env node_id (remove_client tag email)
