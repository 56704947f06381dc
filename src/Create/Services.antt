-- ===== src/Create/Services.antt =====
-- go-backend/service/forward.go: createGostServices. What was sent before a failure is undone.
use flux_panel_plus.Prelude.{ℕ, eq_ℤ, Option, none, some, [], if◌then◌else◌}
use flux_panel_plus.Prelude.Text.{Text}
use flux_panel_plus.Model.{Tunnel, Forward, Node}
use flux_panel_plus.Response.{ok, err, gost}
use flux_panel_plus.Gost.Names.{format_listen_addr}
use flux_panel_plus.Gost.Commands.{
  World, Env, is_gost_success, add_chains_command, delete_chains_command, add_remote_service,
  delete_remote_service, add_service_command,
}
use flux_panel_plus.Ports.Defs.{tunnel_forward}
use flux_panel_plus.Actions.{Action, ◌>>◌, return}

-- A command that must succeed, and the commands that follow where it does not.
abbrev pub expect_or_undo : (World → Text × World) → (World → World) → Action {0} Unit
expect_or_undo c undo w =
    let (msg, w') = c w in if is_gost_success msg then (ok tt, w') else (err (gost msg), undo w')

module _ (env : Env) (f : Forward) (tunnel : Tunnel) (limiter : Option ℕ) (name : Text) where
  unfoldable pub undo_chains : Node → World → World
  unfolding delete_chains_command
  undo_chains in_node w = (delete_chains_command env in_node.id name w).1

  unfoldable pub undo_remote : Option Node → World → World
  unfolding delete_remote_service
  undo_remote none w = w
  undo_remote (some out_node) w = (delete_remote_service env out_node.id name w).1

  unfoldable pub undo_all : Node → Option Node → World → World
  unfolding undo_chains undo_remote
  undo_all in_node out_node w = undo_remote out_node (undo_chains in_node w)

  unfoldable pub chain_command : Node → World → Text × World
  unfolding add_chains_command format_listen_addr
  chain_command in_node =
      add_chains_command env in_node.id name (format_listen_addr tunnel.out_ip f.out_port)
        tunnel.protocol tunnel.interface_name

  unfoldable pub remote_command : Node → World → Text × World
  unfolding add_remote_service
  remote_command out_node =
      add_remote_service env out_node.id name f.out_port f.remote_addr tunnel.protocol f.strategy
        f.interface_name

  -- The interface is the forward's on a tunnel of one node only.
  unfoldable pub main_command : Node → World → Text × World
  unfolding add_service_command
  main_command in_node =
      add_service_command env in_node.id name f.in_port limiter f.remote_addr tunnel.type tunnel
        f.strategy (if eq_ℤ tunnel.type tunnel_forward then [] else f.interface_name)

  unfoldable pub create_remote : Node → Option Node → Action {0} Unit
  unfolding remote_command undo_all
  create_remote in_node none = return tt
  create_remote in_node (some out_node) =
      expect_or_undo (remote_command out_node) (undo_all in_node (some out_node))

  -- A tunnel forward has an exit node, as its nodes were required.
  unfoldable pub create_gost_services : Node → Option Node → Action {0} Unit
  unfolding chain_command undo_chains create_remote main_command undo_all
  create_gost_services in_node out_node =
      (if eq_ℤ tunnel.type tunnel_forward
        then expect_or_undo (chain_command in_node) (undo_chains in_node)
          >> create_remote in_node out_node
        else return tt)
      >> expect_or_undo (main_command in_node) (undo_all in_node out_node)
