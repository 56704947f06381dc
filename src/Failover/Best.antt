-- ===== src/Failover/Best.antt =====
-- The member that a group prefers: the healthy one of least priority.
use flux_panel_plus.Prelude.{
  ℕ, leb_ℤ, ◌≤ℤ◌, ◌≡◌, Bool, true, some, List, [], ◌∷◌, All, arith, Bool-cases, inl, inr, subst,
  ◌==◌, ◌++◌, refl, sym, ◌∙◌, append_assoc, ==_iff, if◌then◌else◌, false,
}
use flux_panel_plus.Prelude.Table.{first_where, first_where_sound, find_where}
use flux_panel_plus.Model.{GroupMember}
use flux_panel_plus.Model.Database.{Db}
use flux_panel_plus.Gost.Commands.{Env}
use flux_panel_plus.Failover.Defs.{
  insert_member, order_by_priority, member_healthy, first_healthy, group_members,
  active_group_member,
}

Sorted : List GroupMember → Type 0
Sorted [] = Unit
Sorted (x ∷ xs) = All (λ m. x.priority ≤ℤ m.priority) xs × Sorted xs

All-weaken :
    (x y : GroupMember) (ms : List GroupMember)
    → x.priority ≤ℤ y.priority
    → All (λ m. y.priority ≤ℤ m.priority) ms
    → All (λ m. x.priority ≤ℤ m.priority) ms
All-weaken x y [] h a = tt
All-weaken x y (m ∷ ms) h a = (omega (arith, h, a.0), All-weaken x y ms h a.1)

All-insert :
    (P : GroupMember → Type 0) (x : GroupMember) (ms : List GroupMember)
    → P x
    → All P ms
    → All P (insert_member x ms)
All-insert P x [] px a = (px, tt)
All-insert P x (m ∷ ms) px a = elim (Bool-cases (leb_ℤ x.priority m.priority)) [
  | inl t ↦ rw t (px, a)
  | inr n ↦ rw n (a.0, All-insert P x ms px a.1)
]

insert-Sorted : (x : GroupMember) (ms : List GroupMember) → Sorted ms → Sorted (insert_member x ms)
unfolding Sorted
insert-Sorted x [] s = (tt, tt)
insert-Sorted x (m ∷ ms) s = elim (Bool-cases (leb_ℤ x.priority m.priority)) [
  | inl t ↦ rw t ((ground (arith, t), All-weaken x m ms (ground (arith, t)) s.0), s)
  | inr n ↦ rw n (
    All-insert (λ y. m.priority ≤ℤ y.priority) x ms (ground (arith, n)) s.0,
    insert-Sorted x ms s.1,
  )
]

order-Sorted : (ms : List GroupMember) → Sorted (order_by_priority ms)
unfolding Sorted order_by_priority
order-Sorted [] = tt
order-Sorted (m ∷ ms) = insert-Sorted m (order_by_priority ms) (order-Sorted ms)

All-inserted :
    (P : GroupMember → Type 0) (x : GroupMember) (ms : List GroupMember)
    → All P (insert_member x ms)
    → P x × All P ms
All-inserted P x [] a = a
All-inserted P x (m ∷ ms) a = elim (Bool-cases (leb_ℤ x.priority m.priority)) [
  | inl t ↦ rw t at a
  | inr n ↦
      let (head, tail) = rw n at a in
      let (px, rest) = All-inserted P x ms tail in (px, (head, rest))
]

All-ordered :
    (P : GroupMember → Type 0) (ms : List GroupMember) → All P (order_by_priority ms) → All P ms
unfolding order_by_priority
All-ordered P [] a = tt
All-ordered P (m ∷ ms) a =
    let (pm, rest) = All-inserted P m (order_by_priority ms) a in (pm, All-ordered P ms rest)

All-online :
    (p : GroupMember → Bool) (b : GroupMember) (ms : List GroupMember)
    → All (λ m. b.priority ≤ℤ m.priority) ms
    → All (λ m. p m ≡ true → b.priority ≤ℤ m.priority) ms
All-online p b [] a = tt
All-online p b (m ∷ ms) a = (λ h. a.0, All-online p b ms a.1)

first_least :
    (p : GroupMember → Bool) (ms : List GroupMember) {b : GroupMember}
    → Sorted ms
    → first_where p ms ≡ some b
    → All (λ m. p m ≡ true → b.priority ≤ℤ m.priority) ms
unfolding Sorted
first_least p [] s e = tt
first_least p (m ∷ ms) {b} s e = elim (Bool-cases (p m)) [
  | inl t ↦
      let found : m ≡ b = ground (arith, t, e) in
      subst (λ x. All (λ y. p y ≡ true → x.priority ≤ℤ y.priority) (m ∷ ms)) found
        ((λ h. omega arith), All-online p m ms s.0)
  | inr n ↦ ((λ h. ground (arith, n, h)), first_least p ms {b = b} s.1 (ground (arith, n, e)))
]

-- A row of the table.
abbrev pub IsRow : List GroupMember → GroupMember → Type 0
IsRow ms m = (front : List GroupMember) × (back : List GroupMember) × (ms ≡ front ++ m ∷ back)

each-IsRow : (all front ms : List GroupMember) → all ≡ front ++ ms → All (IsRow all) ms
each-IsRow all front [] e = tt
each-IsRow all front (m ∷ ms) e =
    ((front, ms, e), each-IsRow all (front ++ m ∷ []) ms (e ∙ sym (append_assoc front (m ∷ []) ms)))

keep_found :
    (P : GroupMember → Type 0) (b : Bool) (m : GroupMember) (ms : List GroupMember)
    → (b ≡ true → P m)
    → All P ms
    → All P (if b then m ∷ ms else ms)
keep_found P true m ms p a = (p refl, a)
keep_found P false m ms p a = a

All-find :
    (P : GroupMember → Type 0) (q : GroupMember → Bool) (ms : List GroupMember)
    → All P ms
    → All (λ m. P m × (q m ≡ true)) (find_where q ms)
All-find P q [] a = tt
All-find P q (m ∷ ms) a =
    keep_found (λ m. P m × (q m ≡ true)) (q m) m (find_where q ms) (λ e. (a.0, e))
      (All-find P q ms a.1)

found_or_not :
    (P : GroupMember → Type 0) (b : Bool) (m : GroupMember) (ms : List GroupMember)
    → All P (if b then m ∷ ms else ms)
    → (b ≡ true → P m) × All P ms
found_or_not P true m ms a = ((λ e. a.0), a.1)
found_or_not P false m ms a = ((λ e. absurd (ground (arith, e))), a)

All-found :
    (P : GroupMember → Type 0) (q : GroupMember → Bool) (ms : List GroupMember)
    → All P (find_where q ms)
    → All (λ m. q m ≡ true → P m) ms
All-found P q [] a = tt
All-found P q (m ∷ ms) a =
    let (p, rest) = found_or_not P (q m) m (find_where q ms) a in (p, All-found P q ms rest)

All-order :
    (P : GroupMember → Type 0) (ms : List GroupMember) → All P ms → All P (order_by_priority ms)
unfolding order_by_priority
All-order P [] a = tt
All-order P (m ∷ ms) a = All-insert P m (order_by_priority ms) a.0 (All-order P ms a.1)

All-first :
    (P : GroupMember → Type 0) (p : GroupMember → Bool) (ms : List GroupMember) {b : GroupMember}
    → All P ms
    → first_where p ms ≡ some b
    → P b
All-first P p [] a e = absurd (ground (arith, e))
All-first P p (m ∷ ms) {b} a e = elim (Bool-cases (p m)) [
  | inl t ↦ subst P (ground (arith, t, e)) a.0
  | inr n ↦ All-first P p ms {b = b} a.1 (ground (arith, n, e))
]

-- The member that a group prefers is a row of the table, of that group and online, and no online row
-- of the group has a smaller priority.
pub active_group_member_best :
    (env : Env) (db : Db) (group_id : ℕ) {b : GroupMember}
    → active_group_member env db group_id ≡ some b
    → IsRow db.members b
      × (b.group_id ≡ group_id)
      × (member_healthy env b ≡ true)
      × All
          (λ m.
            (m.group_id == group_id) ≡ true
            → member_healthy env m ≡ true
            → b.priority ≤ℤ m.priority)
          db.members
unfolding active_group_member group_members first_healthy
active_group_member_best env db group_id {b} e =
    let p = λ (m : GroupMember). m.group_id == group_id in
    let ms = find_where p db.members in
    let (row, own) =
      All-first (λ m. IsRow db.members m × (p m ≡ true)) (member_healthy env) (order_by_priority ms)
        (All-order (λ m. IsRow db.members m × (p m ≡ true)) ms
          (All-find (IsRow db.members) p db.members (each-IsRow db.members [] db.members refl)))
        e in
    (
      row,
      (==_iff b.group_id group_id).0 own,
      first_where_sound (member_healthy env) (order_by_priority ms) e,
      All-found (λ m. member_healthy env m ≡ true → b.priority ≤ℤ m.priority) p db.members
          (All-ordered (λ m. member_healthy env m ≡ true → b.priority ≤ℤ m.priority) ms
            (first_least (member_healthy env) (order_by_priority ms) (order-Sorted ms) e)),
    )
