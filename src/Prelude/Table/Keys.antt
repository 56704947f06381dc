-- ===== src/Prelude/Table/Keys.antt =====
-- Tables with a primary key.
use flux_panel_plus.Prelude.Tests.{◌==◌}
use Prim.Native.Nat.{ℕ}
use mathlib.Core.Path.{◌≡◌, refl, sym, ap, ◌∙◌}
use mathlib.Core.Bool.{Bool, false, ◌||◌}
use mathlib.Core.Option.{Option, none, some}
use mathlib.Core.List.{List, [], ◌∷◌, ◌++◌}
use native.Mathlib.Omega.{arith}
use flux_panel_plus.Prelude.Table.Queries.{
  first_where, find_where, update_where, update_where-cong, update_where_none, update_where_compose,
}

module _ {ℓ} {A : Type ℓ} (key : A → ℕ) where
  abbrev pub by_id : ℕ → A → Bool
  by_id k r = key r == k

  abbrev pub has_id : ℕ → List A → Bool
  has_id k [] = false
  has_id k (r ∷ rs) = key r == k || has_id k rs

  -- No two rows have one key.
  abbrev pub Distinct : List A → Type 0
  Distinct [] = Unit
  Distinct (r ∷ rs) = (has_id (key r) rs ≡ false) × Distinct rs

  -- One update by key for each row of a list that was read before.
  abbrev pub update_each : (A → A) → List A → List A → List A
  update_each g [] rows = rows
  update_each g (s ∷ ss) rows = update_each g ss (update_where (by_id (key s)) g rows)

  has_id_find :
      (p : A → Bool) (k : ℕ) (rs : List A)
      → has_id k rs ≡ false
      → has_id k (find_where p rs) ≡ false
  has_id_find p k [] h = refl
  has_id_find p k (r ∷ rs) h = ground (arith, has_id_find p k rs)

  update_where_twice :
      (g : A → A) (k : ℕ) (ss rows : List A)
      → ((r : A) → key (g r) ≡ key r)
      → ((r : A) → g (g r) ≡ g r)
      → (update_where (λ r. has_id (key r) ss) g (update_where (by_id k) g rows)
          ≡ update_where (λ r. k == key r || has_id (key r) ss) g rows)
  update_where_twice g k ss [] hk hg = refl
  update_where_twice g k ss (r ∷ rows) hk hg =
      ground (arith, hk r, hg r, update_where_twice g k ss rows hk hg)

  update_each-update :
      (g : A → A) (ss rows : List A)
      → ((r : A) → key (g r) ≡ key r)
      → ((r : A) → g (g r) ≡ g r)
      → update_each g ss rows ≡ update_where (λ r. has_id (key r) ss) g rows
  update_each-update g [] rows hk hg = sym (update_where_none (λ r. false) g rows (λ r. refl))
  update_each-update g (s ∷ ss) rows hk hg =
      update_each-update g ss (update_where (by_id (key s)) g rows) hk hg
      ∙ update_where_twice g (key s) ss rows hk hg

  skip_head :
      (g : A → A) (x : A) (ss rows : List A)
      → has_id (key x) rows ≡ false
      → (update_where (λ r. has_id (key r) (x ∷ ss)) g rows
          ≡ update_where (λ r. has_id (key r) ss) g rows)
  skip_head g x ss [] h = refl
  skip_head g x ss (r ∷ rows) h = ground (arith, skip_head g x ss rows)

  -- On distinct keys, updating the rows that a query returned updates those that satisfy it.
  update_found :
      (p : A → Bool) (g : A → A) (rows : List A)
      → Distinct rows
      → (update_where (λ r. has_id (key r) (find_where p rows)) g rows ≡ update_where p g rows)
  update_found p g [] d = refl
  update_found p g (x ∷ rows) d = ground (
    arith,
    has_id_find p (key x) rows d.0,
    skip_head g x (find_where p rows) rows d.0,
    update_found p g rows d.1,
  )

  pub update_each-find :
      (p : A → Bool) (g : A → A) (rows : List A)
      → ((r : A) → key (g r) ≡ key r)
      → ((r : A) → g (g r) ≡ g r)
      → Distinct rows
      → update_each g (find_where p rows) rows ≡ update_where p g rows
  update_each-find p g rows hk hg d =
      update_each-update g (find_where p rows) rows hk hg ∙ update_found p g rows d

  pub has_id_update :
      (p : A → Bool) (g : A → A) (k : ℕ) (rows : List A)
      → ((r : A) → key (g r) ≡ key r)
      → has_id k (update_where p g rows) ≡ has_id k rows
  has_id_update p g k [] hk = refl
  has_id_update p g k (r ∷ rows) hk = ground (arith, hk r, has_id_update p g k rows hk)

  pub update_where-Distinct :
      (p : A → Bool) (g : A → A) (rows : List A)
      → ((r : A) → key (g r) ≡ key r)
      → Distinct rows
      → Distinct (update_where p g rows)
  update_where-Distinct p g [] hk d = tt
  update_where-Distinct p g (r ∷ rows) hk d =
      ground (arith, hk r, has_id_update p g (key r) rows hk, update_where-Distinct p g rows hk d.1)

  pub has_id-append : (k : ℕ) (rs ss : List A) → has_id k (rs ++ ss) ≡ (has_id k rs || has_id k ss)
  has_id-append k [] ss = refl
  has_id-append k (r ∷ rs) ss = ground (arith, has_id-append k rs ss)

  -- On distinct keys, updating the rows that two queries returned updates those that satisfy one.
  pub update_each-find_two :
      (p q : A → Bool) (g : A → A) (rows : List A)
      → ((r : A) → key (g r) ≡ key r)
      → ((r : A) → g (g r) ≡ g r)
      → Distinct rows
      → (update_each g (find_where p rows ++ find_where q rows) rows
          ≡ update_where (λ r. p r || q r) g rows)
  update_each-find_two p q g rows hk hg d =
      let hp = λ (r : A). has_id (key r) (find_where p rows) in
      let hq = λ (r : A). has_id (key r) (find_where q rows) in
      update_each-update g (find_where p rows ++ find_where q rows) rows hk hg
      ∙ update_where-cong _ (λ r. hp r || hq r) g rows
          (λ r. has_id-append (key r) (find_where p rows) (find_where q rows))
      ∙ sym (update_where_compose hp hq g rows hg)
      ∙ ap (update_where hq g) (update_found p g rows d)
      ∙ update_where_compose p hq g rows hg
      ∙ update_where-cong (λ r. p r || hq r) (λ r. hq r || p r) g rows (λ r. ground arith)
      ∙ sym (update_where_compose hq p g rows hg)
      ∙ ap (update_where p g) (update_found q g rows d)
      ∙ update_where_compose q p g rows hg
      ∙ update_where-cong (λ r. q r || p r) (λ r. p r || q r) g rows (λ r. ground arith)

  abbrev pub row_satisfies : (A → Bool) → Option A → Bool
  row_satisfies p none = false
  row_satisfies p (some r) = p r

  -- On distinct keys, a key is among those that a query found if its row satisfies the condition.
  pub has_id-find :
      (p : A → Bool) (k : ℕ) (rows : List A)
      → Distinct rows
      → has_id k (find_where p rows) ≡ row_satisfies p (first_where (by_id k) rows)
  has_id-find p k [] d = refl
  has_id-find p k (r ∷ rows) d =
      ground (arith, has_id_find p (key r) rows d.0, has_id_find p k rows, has_id-find p k rows d.1)
