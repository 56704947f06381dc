-- ===== src/Users/Erased.antt =====
-- What is left in the database when a user is deleted.
use flux_panel_plus.Prelude.{
  ℕ, ◌≡◌, refl, ap, ◌∙◌, Bool, false, not, Option, none, some, List, [], ◌∷◌, ◌==◌, arith,
  if◌then◌else◌, Bool-cases, Option-cases, inl, inr,
}
use flux_panel_plus.Prelude.Table.{
  find_where, delete_where, by_id, for_each, Distinct, delete_each, delete_each-find,
}
use flux_panel_plus.Model.{
  User, UserTunnel, UserNode, Forward, XrayClient, StatisticsFlow, StatisticsUserFlow,
}
use flux_panel_plus.Model.Database.{Db}
use flux_panel_plus.Gost.Commands.{
  World, Env, send_msg, delete_service_command, delete_service_multi_ip, delete_chains_command,
  delete_remote_service, xray_remove_client,
}
use flux_panel_plus.Permissions.Defs.{is_admin, get_user}
use flux_panel_plus.Xray.Defs.{remove_client_of}
use flux_panel_plus.Actions.{is_ok}
use flux_panel_plus.Users.Deletion.{
  delete_main_of, delete_far_of, delete_gost_services_for_forward, delete_user_forward,
  delete_user_forwards, remove_user_clients, delete_user_rows, delete_user,
}

abbrev pub with_forwards_of : Db → List Forward → Db
with_forwards_of db fs = record db { forwards = fs }

-- The rows of a table that are not a user's.
abbrev pub others {ℓ} : {A : Type ℓ} → (A → ℕ) → ℕ → List A → List A
others owner id rows = find_where (λ r. not (owner r == id)) rows

-- The database without the user, and without the user's rows of six tables.
abbrev pub without_user : ℕ → Db → Db
without_user id db = record db {
  users = others (λ (u : User). u.id) id db.users;
  forwards = others (λ (f : Forward). f.user_id) id db.forwards;
  user_tunnels = others (λ (ut : UserTunnel). ut.user_id) id db.user_tunnels;
  user_nodes = others (λ (n : UserNode). n.user_id) id db.user_nodes;
  xray_clients = others (λ (c : XrayClient). c.user_id) id db.xray_clients;
  statistics_flows = others (λ (s : StatisticsFlow). s.user_id) id db.statistics_flows;
  statistics_user_flows =
      others (λ (s : StatisticsUserFlow). s.user_id) id db.statistics_user_flows;
}

deleted-others {ℓ} :
    {A : Type ℓ} (owner : A → ℕ) (id : ℕ) (rows : List A)
    → delete_where (λ r. owner r == id) rows ≡ others owner id rows
deleted-others owner id [] = refl
deleted-others owner id (r ∷ rows) = ground (arith, deleted-others owner id rows)

rows-without_user :
    (id : ℕ) (db : Db)
    → delete_user_rows id
        (with_forwards_of db (delete_where (λ (f : Forward). f.user_id == id) db.forwards))
      ≡ without_user id db
rows-without_user id db = cc (
  deleted-others (λ (u : User). u.id) id db.users,
  deleted-others (λ (f : Forward). f.user_id) id db.forwards,
  deleted-others (λ (ut : UserTunnel). ut.user_id) id db.user_tunnels,
  deleted-others (λ (n : UserNode). n.user_id) id db.user_nodes,
  deleted-others (λ (c : XrayClient). c.user_id) id db.xray_clients,
  deleted-others (λ (s : StatisticsFlow). s.user_id) id db.statistics_flows,
  deleted-others (λ (s : StatisticsUserFlow). s.user_id) id db.statistics_user_flows,
)

-- A user who is not an administrator.
abbrev pub is_deletable : Option User → Bool
is_deletable none = false
is_deletable (some user) = not (is_admin user.role_id)

module _ (env : Env) (id : ℕ) where
  services-db : (f : Forward) (w : World) → (delete_gost_services_for_forward env id f w).db ≡ w.db
  unfolding delete_gost_services_for_forward delete_main_of delete_far_of delete_service_command
      delete_service_multi_ip delete_chains_command delete_remote_service send_msg
  services-db f w = ground arith

  each-db :
      (fs : List Forward) (w : World)
      → (for_each (delete_user_forward env id) fs w).db
        ≡ with_forwards_of w.db (delete_each (λ (f : Forward). f.id) fs w.db.forwards)
  unfolding delete_user_forward
  each-db [] w = refl
  each-db (f ∷ fs) w =
      each-db fs (delete_user_forward env id f w)
      ∙ ap
          (λ (db : Db). with_forwards_of db (
            delete_each (λ (f : Forward). f.id) fs
              (delete_where (by_id (λ (g : Forward). g.id) f.id) db.forwards)))
          (services-db f w)

  client-db : (c : XrayClient) (w : World) → (remove_client_of env c w).db ≡ w.db
  unfolding remove_client_of xray_remove_client send_msg
  client-db c w = ground arith

  clients-db : (cs : List XrayClient) (w : World) → (for_each (remove_client_of env) cs w).db ≡ w.db
  clients-db [] w = refl
  clients-db (c ∷ cs) w = clients-db cs (remove_client_of env c w) ∙ client-db c w

  pub deleted_each-db :
      (w : World)
      → delete_user_rows id (remove_user_clients env id (delete_user_forwards env id w)).db
        ≡ delete_user_rows id (
            with_forwards_of w.db (
              delete_each
                (λ (f : Forward). f.id)
                (find_where (λ (f : Forward). f.user_id == id) w.db.forwards)
                w.db.forwards))
  unfolding remove_user_clients delete_user_forwards
  deleted_each-db w =
      let w' = delete_user_forwards env id w in
      ap (delete_user_rows id) (
        clients-db (find_where (λ (c : XrayClient). c.user_id == id) w'.db.xray_clients) w'
        ∙ each-db (find_where (λ (f : Forward). f.user_id == id) w.db.forwards) w)

  deleted-db :
      (w : World)
      → Distinct (λ (f : Forward). f.id) w.db.forwards
      → delete_user_rows id (remove_user_clients env id (delete_user_forwards env id w)).db
        ≡ without_user id w.db
  deleted-db w distinct =
      deleted_each-db w
      ∙ ap (λ fs. delete_user_rows id (with_forwards_of w.db fs))
          (delete_each-find (λ (f : Forward). f.id) (λ (f : Forward). f.user_id == id) w.db.forwards
            distinct)
      ∙ rows-without_user id w.db

  -- With no two forwards of one id: the deletion of a user succeeds exactly if the user exists and is
  -- no administrator. It then deletes the user's row, and the user's rows of forwards, permissions,
  -- node permissions, Xray clients and the two tables of statistics, whatever the nodes answer, and no
  -- other row: the relay ports of the forwards and the user's Xray inbounds stay. Otherwise it leaves
  -- the database as it was.
  pub delete_user-db :
      (w : World)
      → Distinct (λ (f : Forward). f.id) w.db.forwards
      → let (r, w') = delete_user env id w in
        (is_ok r ≡ is_deletable (get_user w.db id))
        × (w'.db ≡ (if is_ok r then without_user id w.db else w.db))
  unfolding delete_user
  delete_user-db w distinct = elim (Option-cases (get_user w.db id)) [
    | inl n ↦ rw n (refl, refl)
    | inr (user, found) ↦ elim (Bool-cases (is_admin user.role_id)) [
      | inl a ↦ rw (found, a) (refl, refl)
      | inr n ↦ rw (found, n) (refl, deleted-db w distinct)
    ]
  ]
