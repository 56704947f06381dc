-- ===== src/Users/Removed.antt =====
-- What is left in the database when a permission is removed.
use flux_panel_plus.Prelude.{
  ℕ, ◌≡◌, refl, ap, ◌∙◌, Bool, ◌&&◌, Option, none, some, List, [], ◌∷◌, ◌==◌, arith,
}
use flux_panel_plus.Prelude.Table.{
  delete_where, by_id, for_each, Distinct, delete_each, delete_each-find,
}
use flux_panel_plus.Model.{UserTunnel, Forward, Tunnel, Node}
use flux_panel_plus.Model.Database.{Db}
use flux_panel_plus.Response.{ok}
use flux_panel_plus.Gost.Commands.{
  World, Env, send_msg, delete_service_command, delete_service_multi_ip, delete_chains_command,
  delete_remote_service,
}
use flux_panel_plus.Pause.Defs.{get_tunnel}
use flux_panel_plus.Ports.Defs.{get_node_by_id}
use flux_panel_plus.Users.Permissions.{
  forwards_of, get_permission, at_node, tunnel_or_zero, remove_services, remove_forward,
  remove_forwards, delete_permission_row, remove_user_tunnel,
}
use flux_panel_plus.Users.Erased.{with_forwards_of}

abbrev pub is_forward_of : UserTunnel → Forward → Bool
is_forward_of ut f = (f.user_id == ut.user_id) && (f.tunnel_id == ut.tunnel_id)

module _ (env : Env) (ut : UserTunnel) where
  services-db :
      (t : Tunnel) (f : Forward) (i : Node) (w : World) → (remove_services env ut t f i w).db ≡ w.db
  unfolding remove_services delete_service_command delete_service_multi_ip delete_chains_command
      delete_remote_service send_msg
  services-db t f i w = ground arith

  node-db :
      (t : Tunnel) (f : Forward) (o : Option Node) (w : World)
      → (at_node o (remove_services env ut t f) w).db ≡ w.db
  node-db t f none w = refl
  node-db t f (some i) w = services-db t f i w

  each-db :
      (t : Tunnel) (fs : List Forward) (w : World)
      → (for_each (remove_forward env ut t) fs w).db
        ≡ with_forwards_of w.db (delete_each (λ (f : Forward). f.id) fs w.db.forwards)
  unfolding remove_forward
  each-db t [] w = refl
  each-db t (f ∷ fs) w =
      each-db t fs (remove_forward env ut t f w)
      ∙ ap
          (λ (db : Db). with_forwards_of db (
            delete_each (λ (f : Forward). f.id) fs
              (delete_where (by_id (λ (g : Forward). g.id) f.id) db.forwards)))
          (node-db t f (get_node_by_id w.db t.in_node_id) w)

  pub removed_each-db :
      (w : World)
      → (remove_forwards env ut w).db
        ≡ with_forwards_of w.db
            (delete_each (λ (f : Forward). f.id) (forwards_of ut w.db) w.db.forwards)
  unfolding remove_forwards
  removed_each-db w =
      each-db (tunnel_or_zero (get_tunnel w.db ut.tunnel_id)) (forwards_of ut w.db) w

  -- With no two forwards of one id: the removal of a permission that exists succeeds and deletes the
  -- permission and all the user's forwards on its tunnel, whatever the nodes answer, and nothing else.
  pub remove_user_tunnel-db :
      (id : ℕ) (w : World)
      → get_permission w.db id ≡ some ut
      → Distinct (λ (f : Forward). f.id) w.db.forwards
      → let (r, w') = remove_user_tunnel env id w in
        (r ≡ ok tt)
        × (w'.db
            ≡ delete_permission_row ut.id
                (with_forwards_of w.db (delete_where (is_forward_of ut) w.db.forwards)))
  unfolding remove_user_tunnel
  remove_user_tunnel-db id w found distinct = rw found (
    refl,
    ap (delete_permission_row ut.id) (
        removed_each-db w
        ∙ ap (with_forwards_of w.db)
            (delete_each-find (λ (f : Forward). f.id) (is_forward_of ut) w.db.forwards distinct)),
  )
