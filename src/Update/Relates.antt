-- ===== src/Update/Relates.antt =====
-- What a chain of steps does to the database, for any relation between databases that is reflexive
-- and transitive.
use flux_panel_plus.Prelude.{◌≡◌, sym, subst, Bool, true, false, if◌then◌else◌, inl, inr}
use flux_panel_plus.Model.Database.{Db}
use flux_panel_plus.Response.{Result, ok, err, Result-cases}
use flux_panel_plus.Gost.Commands.{World}
use flux_panel_plus.Actions.{Action, after, ◌>>=◌, ◌>>◌, KeepsDb, query}

pub record Preorder : Type 1 where
  pub R : Db → Db → Type 0
  pub reflexive : (db : Db) → R db db
  pub transitive : (a b c : Db) → R a b → R b c → R a c

module _ (o : Preorder) where
  -- The step takes every database to a related one.
  abbrev pub Relates {ℓ} : {A : Type ℓ} → Action A → Type 0
  Relates m = (w : World) → o.R w.db (m w).1.db

  pub same-Relates : (a b : Db) → b ≡ a → o.R a b
  same-Relates a b e = subst (o.R a) (sym e) (o.reflexive a)

  pub KeepsDb-Relates {ℓ} : {A : Type ℓ} (m : Action A) → KeepsDb m → Relates m
  KeepsDb-Relates m k w = same-Relates w.db (m w).1.db (k w)

  after-Relates {ℓ κ} :
      {A : Type ℓ} {B : Type κ} (db : Db) (f : A → Action B) (r : Result A × World)
      → ((a : A) → Relates (f a))
      → o.R db r.1.db
      → o.R db (after f r).1.db
  after-Relates db f (ok a, w) h e = o.transitive db w.db (f a w).1.db e (h a w)
  after-Relates db f (err x, w) h e = e

  pub bind-Relates {ℓ κ} :
      {A : Type ℓ} {B : Type κ} (m : Action A) (f : A → Action B)
      → Relates m
      → ((a : A) → Relates (f a))
      → Relates (m >>= f)
  bind-Relates m f h k w = after-Relates w.db f (m w) k (h w)

  pub then-Relates : (m n : Action {0} Unit) → Relates m → Relates n → Relates (m >> n)
  then-Relates m n h k = bind-Relates m (λ u. n) h (λ u. k)

  pub query-Relates {ℓ κ} :
      {A : Type ℓ} {B : Type κ} (q : Db → Result A) (f : A → Action B)
      → ((a : A) → Relates (f a))
      → Relates (query q >>= f)
  query-Relates q f h = bind-Relates (query q) f (λ w. o.reflexive w.db) h

  -- The same, with what the query has answered.
  pub answered-Relates {ℓ κ} :
      {A : Type ℓ} {B : Type κ} (q : Db → Result A) (f : A → Action B) (w : World)
      → ((a : A) → q w.db ≡ ok a → o.R w.db (f a w).1.db)
      → o.R w.db ((query q >>= f) w).1.db
  answered-Relates q f w h = elim (Result-cases (q w.db)) [
    | inl (a, e) ↦ rw e (h a e)
    | inr (x, e) ↦ rw e (o.reflexive w.db)
  ]

  pub if-Relates :
      (b : Bool) (m n : Action {0} Unit) → Relates m → Relates n → Relates (if b then m else n)
  if-Relates true m n h k = h
  if-Relates false m n h k = k
