-- ===== src/Create/Outcome.antt =====
-- What creating a forward on a tunnel leaves in the database, and that it keeps to the quota.
use flux_panel_plus.Prelude.{
  ℕ, ℤ, pos, ◌≢◌, eq_ℤ, eq_ℤ_iff, ◌≤ℤ◌, ◌≡◌, ◌⊎◌, refl, ap, ◌∙◌, Bool, false, Option, none, some,
  List, [], ◌∷◌, ◌++◌, arith, if◌then◌else◌, Bool-cases, Option-cases, inl, inr,
}
use flux_panel_plus.Prelude.Text.{Text}
use flux_panel_plus.Prelude.Table.{
  update_where, delete_where, count_where, count_where_append, by_id, has_id,
}
use flux_panel_plus.Model.{User, UserTunnel, Tunnel, Forward, Node}
use flux_panel_plus.Model.Database.{Db}
use flux_panel_plus.Response.{Result, ok, err, Result-cases}
use flux_panel_plus.Gost.Names.{build_service_name}
use flux_panel_plus.Gost.Commands.{World, Env}
use flux_panel_plus.Ports.Defs.{allocate_ports}
use flux_panel_plus.Ports.Exclusive.{create_forward_row}
use flux_panel_plus.Pause.Defs.{failed, set_status, get_tunnel, update_forward_status}
use flux_panel_plus.Permissions.Defs.{is_admin, get_user, check_user_permissions, counts_for_user}
use flux_panel_plus.Permissions.Granted.{check_user_permissions_granted}
use flux_panel_plus.Forwards.Steps.{get_required_nodes, delete_forward_row}
use flux_panel_plus.Create.Services.{create_gost_services}
use flux_panel_plus.Create.Quiet.{create_gost_services-KeepsDb}
use flux_panel_plus.Create.Handler.{
  ForwardDto, check_node_access, new_forward, listening_on, mark_failed, deploy_forward,
  create_and_deploy, create_tunnel_forward,
}
use flux_panel_plus.Actions.{is_ok}

-- A row with a new key at the end of the table is the one that an update or a deletion by that key
-- meets.
delete_last :
    (rows : List Forward) (f : Forward)
    → has_id (λ (r : Forward). r.id) f.id rows ≡ false
    → delete_where (by_id (λ (r : Forward). r.id) f.id) (rows ++ f ∷ []) ≡ rows
delete_last [] f h = ground arith
delete_last (r ∷ rows) f h = ground (arith, delete_last rows f)

update_last :
    (rows : List Forward) (f : Forward) (status : ℤ)
    → has_id (λ (r : Forward). r.id) f.id rows ≡ false
    → update_where (by_id (λ (r : Forward). r.id) f.id) (set_status status) (rows ++ f ∷ [])
      ≡ rows ++ set_status status f ∷ []
update_last [] f status h = ground arith
update_last (r ∷ rows) f status h = ground (arith, update_last rows f status)

-- The row as the creation leaves it.
abbrev pub settled_row : Bool → Forward → Forward
settled_row deployed f = if deployed then f else set_status failed f

-- A creation that refuses leaves the database as it was; one that does not adds the row, active where
-- the services are deployed and marked as failed where they are not.
abbrev pub Creates : Forward → Db → Result {0} Unit × World → Type 0
Creates f db (r, w) =
    ((is_ok r ≡ false) × (w.db ≡ db)) ⊎ (w.db ≡ create_forward_row db (settled_row (is_ok r) f))

-- With its row at the end of the table, a deployment settles the row.
pub mark_failed-settles :
    (f : Forward) (db : Db) (s : Result {0} Unit × World)
    → has_id (λ (r : Forward). r.id) f.id db.forwards ≡ false
    → s.1.db ≡ create_forward_row db f
    → let (r, w) = mark_failed f s in w.db ≡ create_forward_row db (settled_row (is_ok r) f)
unfolding mark_failed update_forward_status
mark_failed-settles f db (ok u, w) fresh e = e
mark_failed-settles f db (err x, w) fresh e =
    ap
      (λ (b : Db). record b {
        forwards = update_where (by_id (λ r. r.id) f.id) (set_status failed) b.forwards;
      })
      e
    ∙ ap (λ rows. record db { forwards = rows }) (update_last db.forwards f failed fresh)

deploy_forward-Creates :
    (env : Env) (f : Forward) (t : Tunnel) (limiter : Option ℕ) (ut : Option UserTunnel)
    (nodes : Result (Node × Option Node)) (db : Db) (w : World)
    → has_id (λ (r : Forward). r.id) f.id db.forwards ≡ false
    → w.db ≡ create_forward_row db f
    → Creates f db (deploy_forward env f t limiter ut nodes w)
unfolding deploy_forward
deploy_forward-Creates env f t limiter ut (err x) db w fresh e = inl (
  refl,
  ap (delete_forward_row f.id) e
      ∙ ap (λ rows. record db { forwards = rows }) (delete_last db.forwards f fresh),
)
deploy_forward-Creates env f t limiter ut (ok (i, o)) db w fresh e =
    let name = build_service_name f.id f.user_id ut in
    let t' = listening_on f.listen_ip t in
    inr (
      mark_failed-settles f db (create_gost_services env f t' limiter name i o w) fresh
        (create_gost_services-KeepsDb env f t' limiter name i o w ∙ e))

module _ (env : Env) (id : ℕ) (d : ForwardDto) (user_id : ℕ) (role_id : ℤ) (user_name : Text)
    (w : World) where
  -- What is known of the tunnel, the permission and the ports of a forward that was created.
  abbrev pub Granted : Tunnel → Option ℕ × Option UserTunnel → ℕ × ℕ → Type 0
  Granted t permission ports =
      (get_tunnel w.db d.tunnel_id ≡ some t)
      × (t.status ≡ pos 1)
      × (check_user_permissions env.now w.db user_id role_id t none ≡ ok permission)
      × (allocate_ports w.db t d.in_port none ≡ ok ports)

  abbrev pub row_for : ℕ × ℕ → Forward
  row_for ports = new_forward env w.db id d user_id user_name ports.0 ports.1

  Granted-Creates :
      (t : Tunnel) (permission : Option ℕ × Option UserTunnel) (ports : ℕ × ℕ)
      → has_id (λ (r : Forward). r.id) id w.db.forwards ≡ false
      → Granted t permission ports
      → check_node_access w.db user_id role_id t ≡ ok tt
      → Creates (row_for ports) w.db (create_tunnel_forward env id d user_id role_id user_name w)
  unfolding create_tunnel_forward create_and_deploy
  Granted-Creates t permission ports fresh (found, enabled, permitted, allocated) access =
      let f = row_for ports in
      rw (found, (eq_ℤ_iff t.status (pos 1)).1 enabled, access, permitted, allocated)
        (deploy_forward-Creates env f t permission.0 permission.1
          (get_required_nodes (create_forward_row w.db f) t) w.db
          (record w { db = create_forward_row w.db f }) fresh refl)

  abbrev pub Outcome : Result {0} Unit × World → Type 0
  Outcome (r, w') =
      ((is_ok r ≡ false) × (w'.db ≡ w.db))
      ⊎ ((t : Tunnel) × (permission : Option ℕ × Option UserTunnel) × (ports : ℕ × ℕ) × Granted t
            permission ports
          × (w'.db ≡ create_forward_row w.db (settled_row (is_ok r) (row_for ports))))

  -- With an id that no forward has: a creation either fails and leaves the database as it was, or adds
  -- one row and nothing else. Then the tunnel exists and is enabled, the permission is granted, the
  -- ports are the allocated ones, and the row is active if the creation succeeds and marked as failed
  -- if not.
  pub create_tunnel_forward-Outcome :
      has_id (λ (r : Forward). r.id) id w.db.forwards ≡ false
      → Outcome (create_tunnel_forward env id d user_id role_id user_name w)
  unfolding create_tunnel_forward
  create_tunnel_forward-Outcome fresh = elim (Option-cases (get_tunnel w.db d.tunnel_id)) [
    | inl n ↦ rw n (inl (refl, refl))
    | inr (t, found) ↦ elim (Bool-cases (eq_ℤ t.status (pos 1))) [
      | inr off ↦ rw (found, off) (inl (refl, refl))
      | inl on ↦ elim (Result-cases (check_node_access w.db user_id role_id t)) [
        | inr (x, refused) ↦ rw (found, on, refused) (inl (refl, refl))
        | inl (u, access) ↦
            elim (Result-cases (check_user_permissions env.now w.db user_id role_id t none)) [
              | inr (x, refused) ↦ rw (found, on, access, refused) (inl (refl, refl))
              | inl (permission, permitted) ↦
                  elim (Result-cases (allocate_ports w.db t d.in_port none)) [
                    | inr (x, refused) ↦
                        rw (found, on, access, permitted, refused) (inl (refl, refl))
                    | inl (ports, allocated) ↦
                        let granted : Granted t permission ports =
                          (found, (eq_ℤ_iff t.status (pos 1)).0 on, permitted, allocated) in
                        elim (Granted-Creates t permission ports fresh granted access) [
                          | inl kept ↦ inl kept
                          | inr created ↦ inr (t, permission, ports, granted, created)
                        ]
                  ]
            ]
      ]
    ]
  ]

  -- With an id that no forward has, for a user who is no administrator and whose row has a limit other
  -- than 0: a creation leaves the database as it was, or the user's forwards are then no more than the
  -- limit.
  pub create_tunnel_forward_within_quota :
      {user : User}
      → has_id (λ (r : Forward). r.id) id w.db.forwards ≡ false
      → is_admin role_id ≡ false
      → get_user w.db user_id ≡ some user
      → user.num ≢ pos 0
      → let s = create_tunnel_forward env id d user_id role_id user_name w in
        (s.1.db ≡ w.db)
        ⊎ (pos (count_where (counts_for_user user_id none) s.1.db.forwards) ≤ℤ user.num)
  create_tunnel_forward_within_quota {user} fresh role found limited =
      elim (create_tunnel_forward-Outcome fresh) [
        | inl (refused, kept) ↦ inl kept
        | inr (t, permission, ports, granted, created) ↦
            let (user', p, found', _, _, _, below, _, _, _) =
              check_user_permissions_granted env.now w.db user_id role_id t none
                {limiter = permission.0} {ut = permission.1} role granted.2 in
            let r = (create_tunnel_forward env id d user_id role_id user_name w).0 in
            inr (
              ground (
                arith,
                found,
                found',
                below,
                ap (λ (b : Db). count_where (counts_for_user user_id none) b.forwards) created,
                count_where_append (counts_for_user user_id none) w.db.forwards
                    (settled_row (is_ok r) (row_for ports) ∷ []),
              ))
      ]
