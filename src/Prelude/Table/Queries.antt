-- ===== src/Prelude/Table/Queries.antt =====
-- Queries under a condition on the row, and their laws.
use flux_panel_plus.Prelude.Tests.{leb, if◌then◌else◌}
use flux_panel_plus.Prelude.Lists.{length}
use Prim.Native.Nat.{ℕ, suc, ◌+◌}
use mathlib.Core.Path.{◌≡◌, refl}
use mathlib.Core.Bool.{Bool, true, false, ◌&&◌, ◌||◌}
use mathlib.Core.Option.{Option, none, some}
use mathlib.Core.List.{List, [], ◌∷◌, ◌++◌}
use native.Mathlib.Omega.{arith}

module _ {ℓ} {A : Type ℓ} where
  -- The first row that satisfies the condition.
  abbrev pub first_where : (A → Bool) → List A → Option A
  first_where p [] = none
  first_where p (r ∷ rs) = if p r then some r else first_where p rs

  abbrev pub find_where : (A → Bool) → List A → List A
  find_where p [] = []
  find_where p (r ∷ rs) = if p r then r ∷ find_where p rs else find_where p rs

  abbrev pub count_where : (A → Bool) → List A → ℕ
  count_where p [] = 0
  count_where p (r ∷ rs) = if p r then suc (count_where p rs) else count_where p rs

  abbrev pub update_where : (A → Bool) → (A → A) → List A → List A
  update_where p g [] = []
  update_where p g (r ∷ rs) = (if p r then g r else r) ∷ update_where p g rs

  abbrev pub delete_where : (A → Bool) → List A → List A
  delete_where p [] = []
  delete_where p (r ∷ rs) = if p r then delete_where p rs else r ∷ delete_where p rs

  -- `ORDER BY` a number, ascending; rows of one number stay in primary-key order.
  abbrev pub insert_by : (A → ℕ) → A → List A → List A
  insert_by rank x [] = x ∷ []
  insert_by rank x (r ∷ rs) = if leb (rank x) (rank r) then x ∷ r ∷ rs else r ∷ insert_by rank x rs

  abbrev pub order_by : (A → ℕ) → List A → List A
  order_by rank [] = []
  order_by rank (r ∷ rs) = insert_by rank r (order_by rank rs)

  -- `for _, r := range rows`, with the state that the body changes.
  abbrev pub for_each {κ} : {S : Type κ} → (A → S → S) → List A → S → S
  for_each body [] s = s
  for_each body (r ∷ rs) s = for_each body rs (body r s)

  -- A row that is found satisfies the condition.
  pub first_where_sound :
      (p : A → Bool) (rs : List A) {r : A} → first_where p rs ≡ some r → p r ≡ true
  first_where_sound p [] h = cc
  first_where_sound p (x ∷ rs) {r} h = ground (arith, first_where_sound p rs {r = r})

  pub count-find : (p : A → Bool) (rs : List A) → length (find_where p rs) ≡ count_where p rs
  count-find p [] = refl
  count-find p (x ∷ rs) = ground (arith, count-find p rs)

  pub update_where-cong :
      (p q : A → Bool) (g : A → A) (rs : List A)
      → ((r : A) → p r ≡ q r)
      → update_where p g rs ≡ update_where q g rs
  update_where-cong p q g [] h = refl
  update_where-cong p q g (r ∷ rs) h = ground (arith, h r, update_where-cong p q g rs h)

  pub update_where-agree :
      (p q : A → Bool) (g : A → A) (rs : List A)
      → ((r : A) → (if p r then g r else r) ≡ (if q r then g r else r))
      → update_where p g rs ≡ update_where q g rs
  update_where-agree p q g [] h = refl
  update_where-agree p q g (r ∷ rs) h = cc (h r, update_where-agree p q g rs h)

  -- Two updates by one idempotent change are one update.
  pub update_where_compose :
      (p q : A → Bool) (g : A → A) (rs : List A)
      → ((r : A) → g (g r) ≡ g r)
      → (update_where q g (update_where p g rs) ≡ update_where (λ r. p r || q r) g rs)
  update_where_compose p q g [] hg = refl
  update_where_compose p q g (r ∷ rs) hg = ground (arith, hg r, update_where_compose p q g rs hg)

  pub first_where-cong :
      (p q : A → Bool) (rs : List A) → ((r : A) → p r ≡ q r) → first_where p rs ≡ first_where q rs
  first_where-cong p q [] h = refl
  first_where-cong p q (r ∷ rs) h = ground (arith, h r, first_where-cong p q rs h)

  pub find_where-cong :
      (p q : A → Bool) (rs : List A) → ((r : A) → p r ≡ q r) → find_where p rs ≡ find_where q rs
  find_where-cong p q [] h = refl
  find_where-cong p q (r ∷ rs) h = ground (arith, h r, find_where-cong p q rs h)

  pub find_where-find :
      (p q : A → Bool) (rs : List A)
      → find_where q (find_where p rs) ≡ find_where (λ r. p r && q r) rs
  find_where-find p q [] = refl
  find_where-find p q (r ∷ rs) = ground (arith, find_where-find p q rs)

  pub update_where_none :
      (p : A → Bool) (g : A → A) (rs : List A) → ((r : A) → p r ≡ false) → update_where p g rs ≡ rs
  update_where_none p g [] h = refl
  update_where_none p g (r ∷ rs) h = ground (arith, h r, update_where_none p g rs h)

  pub count_where_update :
      (p q : A → Bool) (g : A → A) (rs : List A)
      → ((r : A) → p (g r) ≡ p r)
      → count_where p (update_where q g rs) ≡ count_where p rs
  count_where_update p q g [] h = refl
  count_where_update p q g (r ∷ rs) h = ground (arith, h r, count_where_update p q g rs h)

  pub count_where-cong :
      (p q : A → Bool) (rs : List A) → ((r : A) → p r ≡ q r) → count_where p rs ≡ count_where q rs
  count_where-cong p q [] h = refl
  count_where-cong p q (r ∷ rs) h = ground (arith, h r, count_where-cong p q rs h)

  pub count_where_append :
      (p : A → Bool) (rs ss : List A)
      → count_where p (rs ++ ss) ≡ count_where p rs + count_where p ss
  count_where_append p [] ss = omega arith
  count_where_append p (r ∷ rs) ss = ground (arith, count_where_append p rs ss)

  -- An update that does not touch what the condition reads is seen through by First.
  pub first_where_update :
      (p q : A → Bool) (g : A → A) (rs : List A)
      → ((r : A) → p (g r) ≡ p r)
      → (first_where p (update_where q g rs)
          ≡ elim (first_where p rs) [ none ↦ none | some r ↦ some (if q r then g r else r) ])
  first_where_update p q g [] h = refl
  first_where_update p q g (r ∷ rs) h = ground (arith, h r, first_where_update p q g rs h)

  pub first_where-none-count :
      (p : A → Bool) (rs : List A) → first_where p rs ≡ none → count_where p rs ≡ 0
  first_where-none-count p [] h = refl
  first_where-none-count p (r ∷ rs) h = ground (arith, first_where-none-count p rs)
