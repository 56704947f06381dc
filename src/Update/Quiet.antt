-- ===== src/Update/Quiet.antt =====
-- The commands of an update leave the database as it is, but for the status.
use flux_panel_plus.Prelude.{ℕ, eq_ℤ, ◌≡◌, refl, Option, none, some, arith, if◌then◌else◌}
use flux_panel_plus.Prelude.Text.{Text}
use flux_panel_plus.Model.{Tunnel, Forward, Node}
use flux_panel_plus.Response.{Result}
use flux_panel_plus.Gost.Names.{build_service_name}
use flux_panel_plus.Gost.Commands.{
  World, Env, send_msg, update_chains_command, add_chains_command, update_remote_service,
  add_remote_service, update_service_command, add_service_command,
}
use flux_panel_plus.Ports.Defs.{tunnel_forward}
use flux_panel_plus.Pause.Defs.{get_user_tunnel}
use flux_panel_plus.Forwards.Steps.{get_required_nodes}
use flux_panel_plus.Actions.{KeepsDb, then-KeepsDb, if-KeepsDb, ◌>>◌, return}
use flux_panel_plus.Update.Services.{
  sync_chain, sync_remote, sync_main, sync_gost_services, delete_old_main, delete_old_remote,
  delete_old_services, delete_old_gost_services,
}
use flux_panel_plus.Update.Handler.{hot_update}

module _ (env : Env) (f : Forward) (t : Tunnel) (limiter : Option ℕ) (name : Text) where
  sync_chain-KeepsDb : (i : Node) → KeepsDb (sync_chain env f t limiter name i)
  unfolding sync_chain update_chains_command add_chains_command send_msg
  sync_chain-KeepsDb i w = ground arith

  sync_remote-KeepsDb : (o : Option Node) → KeepsDb (sync_remote env f t limiter name o)
  unfolding sync_remote update_remote_service add_remote_service send_msg
  sync_remote-KeepsDb none w = refl
  sync_remote-KeepsDb (some o) w = ground arith

  sync_main-KeepsDb : (i : Node) → KeepsDb (sync_main env f t limiter name i)
  unfolding sync_main update_service_command add_service_command send_msg
  sync_main-KeepsDb i w = ground arith

  pub sync_gost_services-KeepsDb :
      (i : Node) (o : Option Node) → KeepsDb (sync_gost_services env f t limiter name i o)
  unfolding sync_gost_services
  sync_gost_services-KeepsDb i o =
      let chain = sync_chain env f t limiter name i in
      let remote = sync_remote env f t limiter name o in
      then-KeepsDb (if eq_ℤ t.type tunnel_forward then chain >> remote else return tt)
        (sync_main env f t limiter name i)
        (if-KeepsDb (eq_ℤ t.type tunnel_forward) (chain >> remote) (return tt)
          (then-KeepsDb chain remote (sync_chain-KeepsDb i) (sync_remote-KeepsDb o)) (λ w. refl))
        (sync_main-KeepsDb i)

module _ (env : Env) (f : Forward) (t : Tunnel) where
  delete_old_services-db :
      (name : Text) (nodes : Result (Node × Option Node)) (w : World)
      → (delete_old_services env f t name nodes w).db ≡ w.db
  unfolding delete_old_services delete_old_main delete_old_remote send_msg
  delete_old_services-db name nodes w = ground arith

  pub delete_old_gost_services-db : (w : World) → (delete_old_gost_services env f t w).db ≡ w.db
  unfolding delete_old_gost_services
  delete_old_gost_services-db w =
      delete_old_services-db
        (build_service_name f.id f.user_id (get_user_tunnel w.db f.user_id t.id))
        (get_required_nodes w.db t) w

pub hot_update-db :
    (env : Env) (f u : Forward) (t : Tunnel) (limiter : Option ℕ) (name : Text) (i : Node)
    (o o' : Option Node) (w : World)
    → (hot_update env f u t limiter name i o o' w).1.db ≡ w.db
unfolding hot_update send_msg
hot_update-db env f u t limiter name i o none w = ground arith
hot_update-db env f u t limiter name i o (some out) w = ground arith
