-- ===== src/Forwards/Names.antt =====
-- Whether the commands of PauseForward, ResumeForward and DeleteForward name the services that the
-- creation of the forward has sent.
use flux_panel_plus.Prelude.{ℕ, ◌≡◌, true, false, Option, List, [], ◌∷◌, ◌++◌, if◌then◌else◌}
use flux_panel_plus.Prelude.Text.{Text}
use flux_panel_plus.Model.{Tunnel}
use flux_panel_plus.Gost.Names.{build_multi_ip_service_names, tcp_name, udp_name}
use flux_panel_plus.Gost.Services.{Service, build_services}
use flux_panel_plus.Gost.Commands.{
  World, Env, Command, pause_service, resume_service, delete_service, add_service_command,
}
use flux_panel_plus.Pause.Defs.{is_multi_ip}
use flux_panel_plus.Forwards.Steps.{set_in_service, delete_in_service}
use flux_panel_plus.Create.Handler.{listening_on}

-- The step sends one command to the node.
abbrev pub Sends : ℕ → Command → (World → Text × World) → World → Type 0
Sends n c m w = (m w).1.sent ≡ w.sent ++ record { node_id = n; command = c } ∷ []

-- The pause, the resumption and the deletion of a forward with a listen address, as it is in its row,
-- name these services.
abbrev pub AreNamed : Env → ℕ → Text → Text → List Text → World → Type 0
AreNamed env n name listen_ip names w =
    Sends n (pause_service names) (set_in_service env true n name listen_ip) w
    × Sends n (resume_service names) (set_in_service env false n name listen_ip) w
    × Sends n (delete_service names) (delete_in_service env n name listen_ip) w

abbrev names_in_commands : Text → Text → List Text
names_in_commands name listen_ip =
    if is_multi_ip listen_ip
    then build_multi_ip_service_names name listen_ip
    else tcp_name name ∷ udp_name name ∷ []

-- The services of a forward on a tunnel, as its creation sends them.
module _ (env : Env) (n : ℕ) (name : Text) (in_port : ℕ) (limiter : Option ℕ) (remote_addr : Text)
    (strategy interface_name : Text) (tunnel : Tunnel) where
  abbrev pub services_on : Text → List Service
  services_on listen_ip =
      let t = listening_on listen_ip tunnel in
      build_services name in_port limiter remote_addr t.type t strategy interface_name
        (env.should_sniff_node n)

  abbrev pub create_on : Text → World → Text × World
  create_on listen_ip =
      let t = listening_on listen_ip tunnel in
      add_service_command env n name in_port limiter remote_addr t.type t strategy interface_name
