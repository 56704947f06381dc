-- ===== src/Sound/Paths.antt =====
-- The hops of a route that is stored are a path.
use flux_panel_plus.Prelude.{
  ℕ, suc, ℤ, ◌≡◌, refl, sym, ap, ◌∙◌, append-nil, true, false, ◌||◌, some, List, [], ◌∷◌, ◌++◌, All,
  arith, ◌==◌, ==_iff, ltb, leb, length, Option-cases, Bool-cases, inl, inr, subst,
}
use flux_panel_plus.Prelude.Table.{
  first_where_sound, find_where, by_id, has_id, Distinct, find_where_append, find_where_none,
  find_where-All,
}
use flux_panel_plus.Model.{Node, RouteHop}
use flux_panel_plus.Model.Database.{Db}
use flux_panel_plus.Response.{Result-cases, ok}
use flux_panel_plus.Ports.Defs.{get_node_by_id, mem}
use flux_panel_plus.Topology.Routes.{route_nodes, validate_route_nodes, new_hops, on_route}
use flux_panel_plus.Sound.Defs.{IsPath}

-- Two ids, one of which the table has, differ.
pub other_id {ℓ} :
    {A : Type ℓ} (key : A → ℕ) (j k : ℕ) (rs : List A)
    → has_id key j rs ≡ true
    → has_id key k rs ≡ false
    → (j == k) ≡ false
other_id key j k rs has lacks = elim (Bool-cases (j == k)) [
  | inr n ↦ n
  | inl e ↦ absurd (ground (arith, has, lacks, ap (λ i. has_id key i rs) ((==_iff j k).0 e)))
]

module _ (db : Db) where
  Fresh : List ℕ → Node → Type 0
  Fresh seen n = mem n.id seen ≡ false

  not_seen :
      (id : ℕ) (seen : List ℕ) (nodes : List Node)
      → All (Fresh (id ∷ seen)) nodes
      → (has_id (λ (n : Node). n.id) id nodes ≡ false) × All (Fresh seen) nodes
  unfolding Fresh
  not_seen id seen [] h = (refl, tt)
  not_seen id seen (n ∷ nodes) h =
      let (other, rest) = not_seen id seen nodes h.1 in
      (ground (arith, h.0, other), (ground (arith, h.0), rest))

  found-id : (id : ℕ) {n : Node} → get_node_by_id db id ≡ some n → n.id ≡ id
  unfolding get_node_by_id
  found-id id {n} h =
      (==_iff n.id id).0 (first_where_sound (by_id (λ (n : Node). n.id) id) db.nodes h)

  Nodes : List ℕ → List ℕ → List Node → Type 0
  Nodes seen ids nodes =
      (length nodes ≡ length ids) × Distinct (λ (n : Node). n.id) nodes × All (Fresh seen) nodes

  with_node :
      (seen : List ℕ) (id : ℕ) (ids : List ℕ) (n : Node) (nodes : List Node)
      → n.id ≡ id
      → mem id seen ≡ false
      → Nodes (id ∷ seen) ids nodes
      → Nodes seen (id ∷ ids) (n ∷ nodes)
  unfolding Nodes Fresh
  with_node seen id ids n nodes e fresh (same, distinct, others) =
      let (other, rest) = not_seen id seen nodes others in
      (
        ap suc same,
        (subst (λ k. has_id (λ (n : Node). n.id) k nodes ≡ false) (sym e) other, distinct),
        (subst (λ k. mem k seen ≡ false) (sym e) fresh, rest),
      )

  route_nodes-Nodes :
      (seen ids : List ℕ) (nodes : List Node)
      → route_nodes db seen ids ≡ ok nodes
      → Nodes seen ids nodes
  unfolding route_nodes Nodes
  route_nodes-Nodes seen [] [] h = (refl, tt, tt)
  route_nodes-Nodes seen [] (n ∷ nodes) h = absurd (ground (arith, h))
  route_nodes-Nodes seen (id ∷ ids) nodes h = elim (Bool-cases (id == 0)) [
    | inl z ↦ absurd (ground (arith, z, h))
    | inr nz ↦ elim (Bool-cases (mem id seen)) [
      | inl s ↦ absurd (ground (arith, nz, s, h))
      | inr fresh ↦ elim (Option-cases (get_node_by_id db id)) [
        | inl n ↦ absurd (ground (arith, nz, fresh, n, h))
        | inr (n, found) ↦ elim (Result-cases (route_nodes db (id ∷ seen) ids)) [
          | inr (x, e) ↦ absurd (ground (arith, nz, fresh, found, e, h))
          | inl (ns, e) ↦
              subst (Nodes seen (id ∷ ids)) {x = n ∷ ns} (ground (arith, nz, fresh, found, e, h)) (
                with_node seen id ids n ns (found-id id found) fresh
                  (route_nodes-Nodes (id ∷ seen) ids ns e))
        ]
      ]
    ]
  ]

  -- Nodes that are accepted are two or more, and different.
  pub validate_route_nodes-Distinct :
      (ids : List ℕ) (nodes : List Node)
      → validate_route_nodes db ids ≡ ok nodes
      → (leb 2 (length nodes) ≡ true) × Distinct (λ (n : Node). n.id) nodes
  unfolding validate_route_nodes Nodes
  validate_route_nodes-Distinct ids nodes h = elim (Bool-cases (ltb (length ids) 2)) [
    | inl few ↦ absurd (ground (arith, few, h))
    | inr enough ↦
        let (same, distinct, fresh) = route_nodes-Nodes [] ids nodes (ground (arith, enough, h)) in
        (ground (arith, enough, same), distinct)
  ]

module _ (now : ℤ) (ids : ℕ → ℕ) (route_id : ℕ) where
  new_hops-length :
      (i : ℕ) (nodes : List Node) → length (new_hops now ids route_id i nodes) ≡ length nodes
  new_hops-length i [] = refl
  new_hops-length i (n ∷ nodes) = ap suc (new_hops-length (suc i) nodes)

  new_hops-has_id :
      (k i : ℕ) (nodes : List Node)
      → has_id (λ (h : RouteHop). h.node_id) k (new_hops now ids route_id i nodes)
        ≡ has_id (λ (n : Node). n.id) k nodes
  new_hops-has_id k i [] = refl
  new_hops-has_id k i (n ∷ nodes) = ap (λ b. (n.id == k) || b) (new_hops-has_id k (suc i) nodes)

  new_hops-Distinct :
      (i : ℕ) (nodes : List Node)
      → Distinct (λ (n : Node). n.id) nodes
      → Distinct (λ (h : RouteHop). h.node_id) (new_hops now ids route_id i nodes)
  new_hops-Distinct i [] d = tt
  new_hops-Distinct i (n ∷ nodes) d =
      (new_hops-has_id n.id (suc i) nodes ∙ d.0, new_hops-Distinct (suc i) nodes d.1)

  pub new_hops-IsPath :
      (i : ℕ) (nodes : List Node)
      → leb 2 (length nodes) ≡ true
      → Distinct (λ (n : Node). n.id) nodes
      → IsPath (new_hops now ids route_id i nodes)
  new_hops-IsPath i nodes two distinct =
      (ap (leb 2) (new_hops-length i nodes) ∙ two, new_hops-Distinct i nodes distinct)

  -- The hops are all on the route.
  pub new_hops-All :
      (P : RouteHop → Type 0) (i : ℕ) (nodes : List Node)
      → ((h : RouteHop) → h.route_id ≡ route_id → P h)
      → All P (new_hops now ids route_id i nodes)
  new_hops-All P i [] k = tt
  new_hops-All P i (n ∷ nodes) k = (k _ refl, new_hops-All P (suc i) nodes k)

module _ (now : ℤ) (ids : ℕ → ℕ) (id : ℕ) (nodes : List Node) (hops : List RouteHop) where
  abbrev fresh_hops : List RouteHop
  fresh_hops = new_hops now ids id 0 nodes

  -- The hops of the other routes stay as they are.
  pub path_of_other :
      (k : ℕ)
      → (id == k) ≡ false
      → find_where (on_route k) (hops ++ fresh_hops) ≡ find_where (on_route k) hops
  path_of_other k differ =
      find_where_append (on_route k) hops fresh_hops
      ∙ ap (λ l. find_where (on_route k) hops ++ l)
          (find_where_none (on_route k) fresh_hops (
            new_hops-All now ids id (λ h. on_route k h ≡ false) 0 nodes
              (λ h e. ground (arith, e, differ))))
      ∙ append-nil (find_where (on_route k) hops)

  pub path_of_new :
      find_where (on_route id) hops ≡ []
      → find_where (on_route id) (hops ++ fresh_hops) ≡ fresh_hops
  path_of_new gone =
      find_where_append (on_route id) hops fresh_hops
      ∙ ap (λ l. l ++ find_where (on_route id) fresh_hops) gone
      ∙ find_where-All (on_route id) fresh_hops
          (new_hops-All now ids id (λ h. on_route id h ≡ true) 0 nodes (λ h e. ground (arith, e)))
