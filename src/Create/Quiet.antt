-- ===== src/Create/Quiet.antt =====
-- Creating the services of a forward leaves the database as it is.
use flux_panel_plus.Prelude.{
  ℕ, eq_ℤ, ◌≡◌, refl, ◌∙◌, Option, none, some, arith, if◌then◌else◌, Bool-cases, inl, inr,
}
use flux_panel_plus.Prelude.Text.{Text}
use flux_panel_plus.Model.{Tunnel, Forward, Node}
use flux_panel_plus.Gost.Commands.{World, Env, send_msg, is_gost_success}
use flux_panel_plus.Ports.Defs.{tunnel_forward}
use flux_panel_plus.Pause.Exact.{send_msg-db}
use flux_panel_plus.Create.Services.{
  expect_or_undo, undo_chains, undo_remote, undo_all, chain_command, remote_command, main_command,
  create_remote, create_gost_services,
}
use flux_panel_plus.Actions.{KeepsDb, return, bind-KeepsDb, if-KeepsDb, ◌>>◌}

pub expect_or_undo-KeepsDb :
    (c : World → Text × World) (undo : World → World)
    → ((w : World) → (c w).1.db ≡ w.db)
    → ((w : World) → (undo w).db ≡ w.db)
    → KeepsDb (expect_or_undo c undo)
expect_or_undo-KeepsDb c undo h k w = elim (Bool-cases (is_gost_success (c w).0)) [
  | inl t ↦ rw t (h w)
  | inr n ↦ rw n (k (c w).1 ∙ h w)
]

module _ (env : Env) (f : Forward) (tunnel : Tunnel) (limiter : Option ℕ) (name : Text) where
  undo_chains-db : (i : Node) (w : World) → (undo_chains env f tunnel limiter name i w).db ≡ w.db
  unfolding undo_chains send_msg
  undo_chains-db i w = ground arith

  undo_all-db :
      (i : Node) (o : Option Node) (w : World)
      → (undo_all env f tunnel limiter name i o w).db ≡ w.db
  unfolding undo_all undo_remote undo_chains send_msg
  undo_all-db i none w = ground arith
  undo_all-db i (some o) w = ground arith

  chain_command-db :
      (i : Node) (w : World) → (chain_command env f tunnel limiter name i w).1.db ≡ w.db
  unfolding chain_command
  chain_command-db i w = send_msg-db env i.id _ w

  remote_command-db :
      (o : Node) (w : World) → (remote_command env f tunnel limiter name o w).1.db ≡ w.db
  unfolding remote_command
  remote_command-db o w = send_msg-db env o.id _ w

  main_command-db :
      (i : Node) (w : World) → (main_command env f tunnel limiter name i w).1.db ≡ w.db
  unfolding main_command
  main_command-db i w = send_msg-db env i.id _ w

  create_remote-KeepsDb :
      (i : Node) (o : Option Node) → KeepsDb (create_remote env f tunnel limiter name i o)
  unfolding create_remote
  create_remote-KeepsDb i none = λ w. refl
  create_remote-KeepsDb i (some o) =
      expect_or_undo-KeepsDb (remote_command env f tunnel limiter name o)
        (undo_all env f tunnel limiter name i (some o)) (remote_command-db o)
        (undo_all-db i (some o))

  pub create_gost_services-KeepsDb :
      (i : Node) (o : Option Node) → KeepsDb (create_gost_services env f tunnel limiter name i o)
  unfolding create_gost_services
  create_gost_services-KeepsDb i o =
      let command = chain_command env f tunnel limiter name i in
      let undo = undo_chains env f tunnel limiter name i in
      let chain = expect_or_undo command undo in
      let remote = create_remote env f tunnel limiter name i o in
      let main = main_command env f tunnel limiter name i in
      let undo_main = undo_all env f tunnel limiter name i o in
      bind-KeepsDb (if eq_ℤ tunnel.type tunnel_forward then chain >> remote else return tt)
        (λ u. expect_or_undo main undo_main)
        (if-KeepsDb (eq_ℤ tunnel.type tunnel_forward) (chain >> remote) (return tt)
          (bind-KeepsDb chain (λ u. remote)
            (expect_or_undo-KeepsDb command undo (chain_command-db i) (undo_chains-db i))
            (λ u. create_remote-KeepsDb i o))
          (λ w. refl))
        (λ u. expect_or_undo-KeepsDb main undo_main (main_command-db i) (undo_all-db i o))
