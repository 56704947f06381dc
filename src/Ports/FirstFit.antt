-- ===== src/Ports/FirstFit.antt =====
-- The search for a free port: what it returns, and that it misses none.
use flux_panel_plus.Prelude.{
  ℕ, zero, suc, ◌+◌, ◌≤◌, ◌<◌, ◌≡◌, ◌≢◌, ap, Bool, true, false, Option, none, some, arith,
  Bool-cases, inl, inr,
}
use native.Mathlib.Decide.{ℕ_discrete}
use flux_panel_plus.Model.{Node}
use flux_panel_plus.Model.Database.{Db}
use flux_panel_plus.Ports.Defs.{
  mem, get_node_by_id, get_all_used_ports_on_node, first_free, rounds, allocate_port_for_node,
}

pub first_free_sound :
    (used : ℕ → Bool) (n p : ℕ) {q : ℕ}
    → first_free used n p ≡ some q
    → (p ≤ q) × (q < p + n) × (used q ≡ false)
unfolding first_free
first_free_sound used zero p h = cc
first_free_sound used (suc n) p {q} h = ground (arith, first_free_sound used n (suc p) {q = q})

first_free_least :
    (used : ℕ → Bool) (n p r : ℕ) {q : ℕ}
    → first_free used n p ≡ some q
    → p ≤ r
    → r < q
    → used r ≡ true
unfolding first_free
first_free_least used zero p r h a b = cc
first_free_least used (suc n) p r {q} h a b = elim (Bool-cases (used p)) [
  | inl busy ↦ elim (ℕ_discrete p r) [
    | yes e ↦ rw (← e) busy
    | no ne ↦ first_free_least used n (suc p) r {q = q} (ground arith) (omega arith) b
  ]
  | inr free ↦ absurd (ground arith)
]

first_free_complete :
    (used : ℕ → Bool) (n p r : ℕ) → p ≤ r → r < p + n → used r ≡ false → first_free used n p ≢ none
unfolding first_free
first_free_complete used zero p r a b free = absurd (omega arith)
first_free_complete used (suc n) p r a b free = elim (ℕ_discrete p r) [
  | yes e ↦ ground (arith, ap used e)
  | no ne ↦ ground (arith, first_free_complete used n (suc p) r)
]

module _ (db : Db) (node_id : ℕ) (exclude : Option ℕ) (node : Node) where
  pub allocate_port_sound :
      {port : ℕ}
      → get_node_by_id db node_id ≡ some node
      → allocate_port_for_node db node_id exclude ≡ some port
      → (node.port_sta ≤ port)
        × (port ≤ node.port_end)
        × (mem port (get_all_used_ports_on_node db node_id exclude) ≡ false)
  unfolding allocate_port_for_node
  allocate_port_sound {port} found h = ground (
    arith,
    first_free_sound (λ p. mem p (get_all_used_ports_on_node db node_id exclude)) (rounds node)
        node.port_sta {q = port},
  )

  -- On a node that exists, every port of the node's range below the allocated one is in use.
  pub allocate_port_first_fit :
      (lower : ℕ) {port : ℕ}
      → get_node_by_id db node_id ≡ some node
      → allocate_port_for_node db node_id exclude ≡ some port
      → node.port_sta ≤ lower
      → lower < port
      → mem lower (get_all_used_ports_on_node db node_id exclude) ≡ true
  unfolding allocate_port_for_node
  allocate_port_first_fit lower {port} found h a b = ground (
    arith,
    first_free_least (λ p. mem p (get_all_used_ports_on_node db node_id exclude)) (rounds node)
        node.port_sta lower {q = port},
  )

  -- A node that exists runs out of ports only when every port of its range is in use.
  pub allocate_port_complete :
      (port : ℕ)
      → get_node_by_id db node_id ≡ some node
      → node.port_sta ≤ port
      → port ≤ node.port_end
      → mem port (get_all_used_ports_on_node db node_id exclude) ≡ false
      → allocate_port_for_node db node_id exclude ≢ none
  unfolding allocate_port_for_node
  allocate_port_complete port found a b free = ground (
    arith,
    first_free_complete (λ p. mem p (get_all_used_ports_on_node db node_id exclude)) (rounds node)
        node.port_sta port,
  )
