-- ===== src/Update/Rename.antt =====
-- A change of a forward's name alone makes the forward active, whatever paused it.
use flux_panel_plus.Prelude.{
  ℕ, ℤ, pos, ◌≡◌, refl, Option, none, some, List, [], ◌∷◌, arith, ==_refl, eq_ℤ_iff, Option-cases,
  inl, inr,
}
use flux_panel_plus.Prelude.Text.{Text, text_eq_refl}
use flux_panel_plus.Prelude.Table.{first_where, update_where, by_id}
use flux_panel_plus.Model.{UserTunnel, Tunnel, Forward, Node}
use flux_panel_plus.Model.Database.{Db}
use flux_panel_plus.Response.{ok}
use flux_panel_plus.Gost.Commands.{World, Env}
use flux_panel_plus.Pause.Defs.{active, get_tunnel}
use flux_panel_plus.Forwards.Steps.{
  validate_forward_exists, check_user_enabled, permission_for, get_required_nodes,
}
use flux_panel_plus.Address.Defs.{Resolver, validate_remote_addr}
use flux_panel_plus.Update.Handler.{
  ForwardUpdateDto, update_permissions, updated_ports, updated_forward, set_updated, update_row,
  update_tunnel_forward,
}
use flux_panel_plus.Update.Entry.{update_on_route_or_tunnel, update_forward}

-- The request that changes the name only.
abbrev pub rename_request : Forward → Text → ForwardUpdateDto
rename_request f name = record {
  id = f.id;
  name = name;
  tunnel_id = f.tunnel_id;
  route_id = 0;
  remote_addr = f.remote_addr;
  strategy = f.strategy;
  in_port = none;
  listen_ip = f.listen_ip;
  interface_name = f.interface_name;
}

module _ (env : Env) (lookup : Resolver) (f : Forward) (name : Text) where
  abbrev renamed : Forward
  renamed = updated_forward env.now (rename_request f name) f (f.in_port, f.out_port)

  renames :
      (user_id : ℕ) (role_id : ℤ) (w : World) (t : Tunnel) (ut : Option UserTunnel) (i : Node)
      (o : Option Node)
      → get_tunnel w.db f.tunnel_id ≡ some t
      → t.status ≡ pos 1
      → permission_for w.db user_id role_id f t ≡ ok ut
      → get_required_nodes w.db t ≡ ok (i, o)
      → (update_tunnel_forward env (rename_request f name) user_id role_id f w
          ≡ (ok tt, record w { db = update_row f.id (set_updated renamed) w.db }))
  unfolding update_tunnel_forward update_permissions updated_ports
  renames user_id role_id w t ut i o found enabled permitted nodes = rw (
    found,
    (eq_ℤ_iff t.status (pos 1)).1 enabled,
    ==_refl f.tunnel_id,
    permitted,
    nodes,
    text_eq_refl f.listen_ip,
    ==_refl f.in_port,
    text_eq_refl f.interface_name,
    text_eq_refl f.remote_addr,
    text_eq_refl f.strategy,
  )

first_updated :
    (id : ℕ) (g : Forward → Forward) (rows : List Forward) {f : Forward}
    → ((r : Forward) → (g r).id ≡ r.id)
    → first_where (by_id (λ (r : Forward). r.id) id) rows ≡ some f
    → first_where
        (by_id (λ (r : Forward). r.id) id)
        (update_where (by_id (λ (r : Forward). r.id) id) g rows)
      ≡ some (g f)
first_updated id g [] keep h = cc
first_updated id g (r ∷ rows) {f} keep h =
    ground (arith, keep r, first_updated id g rows {f = f} keep)

owned-first :
    (db : Db) (id user_id : ℕ) (role_id : ℤ) {f : Forward}
    → validate_forward_exists db id user_id role_id ≡ some f
    → first_where (by_id (λ (r : Forward). r.id) id) db.forwards ≡ some f
unfolding validate_forward_exists
owned-first db id user_id role_id {f} e =
    elim (Option-cases (first_where (by_id (λ (r : Forward). r.id) id) db.forwards)) [
      | inl n ↦ absurd (ground (arith, n, e))
      | inr (r, s) ↦ ground (arith, s, e)
    ]

module _ (env : Env) (lookup : Resolver) (port_ids : ℕ → ℕ) (f : Forward) (name : Text)
    (user_id : ℕ) (role_id : ℤ) (w : World) {t : Tunnel} {ut : Option UserTunnel} {i : Node}
    {o : Option Node} where
  -- A request that changes nothing but the name of a forward on a tunnel makes the forward active and
  -- sends no command, where the caller is enabled and may change the forward, its address is
  -- accepted, its tunnel is enabled and has its nodes, and there is a permission for the tunnel if the
  -- caller is no administrator. Neither the status that the forward had nor any traffic limit or time
  -- of expiry of the permission makes a difference.
  pub update_forward-reactivates :
      check_user_enabled w.db user_id role_id ≡ ok tt
      → validate_remote_addr lookup f.remote_addr role_id ≡ ok tt
      → validate_forward_exists w.db f.id user_id role_id ≡ some f
      → f.route_id ≡ 0
      → get_tunnel w.db f.tunnel_id ≡ some t
      → t.status ≡ pos 1
      → permission_for w.db user_id role_id f t ≡ ok ut
      → get_required_nodes w.db t ≡ ok (i, o)
      → let (r, w') =
          update_forward env lookup port_ids (rename_request f name) user_id role_id w in
        (r ≡ ok tt)
        × (w'.sent ≡ w.sent)
        × ((g : Forward) × (first_where (by_id (λ (r : Forward). r.id) f.id) w'.db.forwards
              ≡ some g)
            × (g.name ≡ name)
            × (g.status ≡ active))
  unfolding update_forward update_on_route_or_tunnel
  update_forward-reactivates caller accepted found on_tunnel tunnel enabled permitted nodes =
      let u = renamed env lookup f name in
      rw
        (
          caller,
          accepted,
          found,
          on_tunnel,
          renames env lookup f name user_id role_id w t ut i o tunnel enabled permitted nodes,
        )
        (
          refl,
          refl,
          (
            set_updated u f,
            first_updated f.id (set_updated u) w.db.forwards (λ r. refl)
                (owned-first w.db f.id user_id role_id found),
            refl,
            refl,
          ),
        )
