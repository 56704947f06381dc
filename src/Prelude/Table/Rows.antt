-- ===== src/Prelude/Table/Rows.antt =====
-- What holds of all rows of a table, and the keys of a table that grows or shrinks.
use flux_panel_plus.Prelude.Tests.{◌==◌, ltb, if◌then◌else◌}
use flux_panel_plus.Prelude.Lists.{All}
use Prim.Native.Nat.{ℕ}
use mathlib.Core.Path.{◌≡◌, refl}
use mathlib.Core.Bool.{Bool, true, false}
use mathlib.Core.Option.{some}
use mathlib.Core.List.{List, [], ◌∷◌, ◌++◌}
use native.Mathlib.Omega.{arith}
use flux_panel_plus.Prelude.Table.Queries.{
  first_where, find_where, count_where, update_where, delete_where,
}
use flux_panel_plus.Prelude.Table.Keys.{by_id, has_id}

module _ {ℓ κ} {A : Type ℓ} (P : A → Type κ) where
  chosen :
      (b : Bool) (g : A → A) (r : A) → ((a : A) → P a → P (g a)) → P r → P (if b then g r else r)
  chosen true g r h p = h r p
  chosen false g r h p = p

  pub All-update :
      (q : A → Bool) (g : A → A) (rs : List A)
      → ((a : A) → P a → P (g a))
      → All P rs
      → All P (update_where q g rs)
  All-update q g [] h a = tt
  All-update q g (r ∷ rs) h a = (chosen (q r) g r h a.0, All-update q g rs h a.1)

  kept :
      (b : Bool) (r : A) (rest : List A)
      → (b ≡ false → P r)
      → All P rest
      → All P (if b then rest else r ∷ rest)
  kept true r rest p h = h
  kept false r rest p h = (p refl, h)

  -- Of the rows that a deletion leaves, its condition does not hold.
  pub All-delete :
      (q : A → Bool) (rs : List A) → All (λ r. q r ≡ false → P r) rs → All P (delete_where q rs)
  All-delete q [] a = tt
  All-delete q (r ∷ rs) a = kept (q r) r (delete_where q rs) a.0 (All-delete q rs a.1)

module _ {ℓ} {A : Type ℓ} where
  pub All-none :
      (q : A → Bool) (rs : List A) → ltb 0 (count_where q rs) ≡ false → All (λ r. q r ≡ false) rs
  All-none q [] h = tt
  All-none q (r ∷ rs) h = (ground (arith, h), All-none q rs (ground (arith, h)))

  -- Conditions that no row that is deleted meets are counted as before.
  pub count_where_delete :
      (p q : A → Bool) (rs : List A)
      → ((r : A) → q r ≡ true → p r ≡ false)
      → count_where p (delete_where q rs) ≡ count_where p rs
  count_where_delete p q [] h = refl
  count_where_delete p q (r ∷ rs) h = ground (arith, h r, count_where_delete p q rs h)

  pub find_where_delete :
      (p q : A → Bool) (rs : List A)
      → ((r : A) → q r ≡ true → p r ≡ false)
      → find_where p (delete_where q rs) ≡ find_where p rs
  find_where_delete p q [] h = refl
  find_where_delete p q (r ∷ rs) h = ground (arith, h r, find_where_delete p q rs h)

  pub find_where_deleted : (p : A → Bool) (rs : List A) → find_where p (delete_where p rs) ≡ []
  find_where_deleted p [] = refl
  find_where_deleted p (r ∷ rs) = ground (arith, find_where_deleted p rs)

  pub find_where_append :
      (p : A → Bool) (rs ss : List A) → find_where p (rs ++ ss) ≡ find_where p rs ++ find_where p ss
  find_where_append p [] ss = refl
  find_where_append p (r ∷ rs) ss = ground (arith, find_where_append p rs ss)

  pub find_where_none :
      (p : A → Bool) (rs : List A) → All (λ r. p r ≡ false) rs → find_where p rs ≡ []
  find_where_none p [] h = refl
  find_where_none p (r ∷ rs) h = ground (arith, h, find_where_none p rs h.1)

  pub find_where-All :
      (p : A → Bool) (rs : List A) → All (λ r. p r ≡ true) rs → find_where p rs ≡ rs
  find_where-All p [] h = refl
  find_where-All p (r ∷ rs) h = ground (arith, h, find_where-All p rs h.1)

module _ {ℓ} {A : Type ℓ} (key : A → ℕ) where
  pub has_id_found :
      (k : ℕ) (rs : List A) {r : A} → first_where (by_id key k) rs ≡ some r → has_id key k rs ≡ true
  has_id_found k [] h = cc
  has_id_found k (x ∷ rs) {r} h = ground (arith, has_id_found k rs {r = r})

  pub has_id_delete :
      (k d : ℕ) (rs : List A)
      → (d == k) ≡ false
      → has_id key k (delete_where (by_id key d) rs) ≡ has_id key k rs
  has_id_delete k d [] h = refl
  has_id_delete k d (r ∷ rs) h = ground (arith, h, has_id_delete k d rs h)

  -- A table that has got a row more has the ids that it had.
  pub has_id_grow :
      (k : ℕ) (rs ss : List A) → has_id key k rs ≡ true → has_id key k (rs ++ ss) ≡ true
  has_id_grow k [] ss h = absurd (ground (arith, h))
  has_id_grow k (r ∷ rs) ss h = ground (arith, h, has_id_grow k rs ss)
