-- ===== src/Users/Derived.antt =====
-- The flags of a user that are derived from the user's node rows.
use flux_panel_plus.Prelude.{
  ℕ, pos, eq_ℤ, ◌≡◌, ◌↔◌, refl, sym, ap, ◌∙◌, Bool, true, false, ◌&&◌, some, List, [], ◌∷◌, ◌==◌,
  ltb, arith, if◌then◌else◌, Bool-cases, Option-cases, inl, inr, All,
}
use flux_panel_plus.Prelude.Table.{
  first_where, first_where_sound, first_where_update, count_where, by_id, has_id,
}
use flux_panel_plus.Model.{User, UserNode, Node}
use flux_panel_plus.Model.Database.{Db}
use flux_panel_plus.Create.Handler.{user_has_gost_node_access}
use flux_panel_plus.Permissions.Defs.{get_user}
use flux_panel_plus.Users.Access.{
  of_user, flag_of, set_enabled, update_user_row, derive_user_permissions,
}

flag_on : (b : Bool) → (if b then pos 1 else pos 0) ≡ pos 1 → b ≡ true
flag_on true h = refl
flag_on false h = absurd (ground (arith, h))

on_flag : (b : Bool) → b ≡ true → (if b then pos 1 else pos 0) ≡ pos 1
on_flag true h = refl
on_flag false h = absurd (ground (arith, h))

module _ (user_id : ℕ) where
  abbrev gost_rows : List UserNode → ℕ
  gost_rows = count_where (λ (n : UserNode). (n.user_id == user_id) && eq_ℤ n.gost_enabled (pos 1))

  abbrev gost_rows_on : ℕ → List UserNode → ℕ
  gost_rows_on node_id = count_where (λ (n : UserNode).
      (n.user_id == user_id) && (n.node_id == node_id) && eq_ℤ n.gost_enabled (pos 1))

  -- A row that has the flag is some node's, of those that the rows name.
  node_of_row :
      (P : ℕ → Type 0) (rows : List UserNode)
      → All (λ (n : UserNode). P n.node_id) rows
      → ltb 0 (gost_rows rows) ≡ true
      → (k : ℕ) × P k × (ltb 0 (gost_rows_on k rows) ≡ true)
  node_of_row P [] a h = absurd (ground (arith, h))
  node_of_row P (n ∷ rows) a h =
      elim (Bool-cases ((n.user_id == user_id) && eq_ℤ n.gost_enabled (pos 1))) [
        | inl t ↦ (n.node_id, a.0, ground (arith, t))
        | inr f ↦
            let (k, p, e) = node_of_row P rows a.1 (ground (arith, f, h)) in
            (k, p, ground (arith, e))
      ]

  row_of_node :
      (k : ℕ) (rows : List UserNode)
      → ltb 0 (gost_rows_on k rows) ≡ true
      → ltb 0 (gost_rows rows) ≡ true
  row_of_node k [] h = absurd (ground (arith, h))
  row_of_node k (n ∷ rows) h = ground (arith, h, row_of_node k rows)

  -- The row after an update by its id.
  updated_user :
      (db : Db) (g : User → User) {u : User}
      → ((r : User) → (g r).id ≡ r.id)
      → get_user (update_user_row user_id g db) user_id ≡ some u
      → (r : User) × (u ≡ g r)
  unfolding get_user
  updated_user db g {u} keep h =
      let p = by_id (λ (r : User). r.id) user_id in
      let e = first_where_update p p g db.users (λ r. ap (λ k. k == user_id) (keep r)) in
      elim (Option-cases (first_where p db.users)) [
        | inl n ↦ absurd (ground (arith, e, n, h))
        | inr (r, found) ↦ (r, ground (arith, e, found, h, first_where_sound p db.users found))
      ]

  -- Where there is a node, and every row of node permissions names a node that there is: after the
  -- derivation, a user's row says that the user may use port forwarding exactly if there is a node on
  -- which the user may.
  pub derive_user_permissions_iff :
      (db : Db) (node : ℕ) {u : User}
      → has_id (λ (n : Node). n.id) node db.nodes ≡ true
      → All (λ (n : UserNode). has_id (λ (n : Node). n.id) n.node_id db.nodes ≡ true) db.user_nodes
      → get_user (derive_user_permissions user_id db) user_id ≡ some u
      → let db' = derive_user_permissions user_id db in
        (u.gost_enabled ≡ pos 1) ↔ (
          (k : ℕ) × (has_id (λ (n : Node). n.id) k db.nodes ≡ true)
          × (user_has_gost_node_access db' user_id k ≡ true))
  unfolding derive_user_permissions user_has_gost_node_access
  derive_user_permissions_iff db node {u} there known =
      elim (Bool-cases (count_where (of_user user_id) db.user_nodes == 0)) [
        | inl z ↦ rw z (λ found.
            let (r, e) = updated_user db (set_enabled (pos 1) (pos 1)) (λ r. refl) found in
            (λ on. (node, there, ground (arith, z)), λ access. ap (λ (x : User). x.gost_enabled) e))
        | inr rows ↦ rw rows (λ found.
            let gost = flag_of (λ n. n.gost_enabled) user_id db.user_nodes in
            let xray = flag_of (λ n. n.xray_enabled) user_id db.user_nodes in
            let (r, e) = updated_user db (set_enabled gost xray) (λ r. refl) found in
            let flag : u.gost_enabled ≡ gost = ap (λ (x : User). x.gost_enabled) e in
            let some_row = ltb 0 (gost_rows db.user_nodes) in
            (
              λ on.
                  let (k, there', h) =
                    node_of_row (λ k. has_id (λ (n : Node). n.id) k db.nodes ≡ true) db.user_nodes
                      known (flag_on some_row (sym flag ∙ on)) in
                  (k, there', ground (arith, h)),
              λ (k, there', h).
                  flag ∙ on_flag some_row (row_of_node k db.user_nodes (ground (arith, rows, h))),
            ))
      ]
