-- ===== src/Actions.antt =====
-- A handler of the panel: from the state of the world to a result and a new state. An error returns
-- at once, with the state as it then is.
use flux_panel_plus.Prelude.{
  ◌≡◌, refl, ap, ◌∙◌, Bool, true, false, ◌||◌, if◌then◌else◌, List, [], ◌∷◌,
}
use flux_panel_plus.Prelude.Text.{Text}
use flux_panel_plus.Model.Database.{Db}
use flux_panel_plus.Response.{Result, ok, err, Error, gost}
use flux_panel_plus.Gost.Commands.{World, is_gost_success, is_not_found}

abbrev pub Action {ℓ} : Type ℓ → Type ℓ
Action A = World → Result A × World

infixl 5 ◌>>=◌ ◌>>◌
-- The rest of a handler behind a step.
abbrev pub after {ℓ κ} :
    {A : Type ℓ} {B : Type κ} → (A → Action B) → Result A × World → Result B × World
after f (ok a, w) = f a w
after f (err e, w) = (err e, w)

abbrev pub ◌>>=◌ {ℓ κ} : {A : Type ℓ} {B : Type κ} → Action A → (A → Action B) → Action B
◌>>=◌ m f w = after f (m w)

abbrev pub ◌>>◌ {ℓ κ} : {A : Type ℓ} {B : Type κ} → Action A → Action B → Action B
◌>>◌ m n w = after (λ a. n) (m w)

abbrev pub return {ℓ} : {A : Type ℓ} → A → Action A
return a w = (ok a, w)

abbrev pub fail {ℓ} : {A : Type ℓ} → Error → Action A
fail e w = (err e, w)

-- A query, and a result that a query computes.
abbrev pub query {ℓ} : {A : Type ℓ} → (Db → Result A) → Action A
query q w = (q w.db, w)

abbrev pub answer_ok : Text → Result {0} Unit
answer_ok msg = if is_gost_success msg then ok tt else err (gost msg)

-- `gostDeleteError`: what is already gone counts as deleted. No message is empty, so that an error
-- text always says that there is an error.
abbrev pub answer_gone : Text → Result {0} Unit
answer_gone msg = if is_gost_success msg || is_not_found msg then ok tt else err (gost msg)

-- A command whose answer must be `OK`.
abbrev pub expect_ok : (World → Text × World) → Action {0} Unit
expect_ok c w = let (msg, w') = c w in (answer_ok msg, w')

abbrev pub expect_gone : (World → Text × World) → Action {0} Unit
expect_gone c w = let (msg, w') = c w in (answer_gone msg, w')

abbrev pub change : (Db → Db) → Action {0} Unit
change f w = (ok tt, record w { db = f w.db })

-- A step whose outcome is not looked at.
abbrev pub perform : (World → World) → Action {0} Unit
perform f w = (ok tt, f w)

-- `for _, r := range rows`, with a return at the first error.
abbrev pub for_rows {ℓ} : {A : Type ℓ} → (A → Action {0} Unit) → List A → Action {0} Unit
for_rows body [] = return tt
for_rows body (r ∷ rs) = body r >> for_rows body rs

-- The step leaves the database as it is.
abbrev pub KeepsDb {ℓ} : {A : Type ℓ} → Action A → Type 0
KeepsDb m = (w : World) → (m w).1.db ≡ w.db

abbrev pub is_ok {ℓ} : {A : Type ℓ} → Result A → Bool
is_ok (ok a) = true
is_ok (err e) = false

-- The step makes one change to the database where it succeeds, and none where it fails.
abbrev pub Commits {ℓ} : {A : Type ℓ} → (Db → Db) → Action A → Type 0
Commits g m = (w : World) → (m w).1.db ≡ (if is_ok (m w).0 then g w.db else w.db)

after-KeepsDb {ℓ κ} :
    {A : Type ℓ} {B : Type κ} (f : A → Action B)
    → ((a : A) → KeepsDb (f a))
    → (r : Result A × World) → (after f r).1.db ≡ r.1.db
after-KeepsDb f h (ok a, w) = h a w
after-KeepsDb f h (err e, w) = refl

pub bind-KeepsDb {ℓ κ} :
    {A : Type ℓ} {B : Type κ} (m : Action A) (f : A → Action B)
    → KeepsDb m
    → ((a : A) → KeepsDb (f a))
    → KeepsDb (m >>= f)
bind-KeepsDb m f h k w = after-KeepsDb f k (m w) ∙ h w

pub then-KeepsDb : (m n : Action {0} Unit) → KeepsDb m → KeepsDb n → KeepsDb (m >> n)
then-KeepsDb m n h k = bind-KeepsDb m (λ u. n) h (λ u. k)

pub for_rows-KeepsDb {ℓ} :
    {A : Type ℓ} (body : A → Action {0} Unit) (rs : List A)
    → ((r : A) → KeepsDb (body r))
    → KeepsDb (for_rows body rs)
for_rows-KeepsDb body [] h w = refl
for_rows-KeepsDb body (r ∷ rs) h w =
    bind-KeepsDb (body r) (λ u. for_rows body rs) (h r) (λ u. for_rows-KeepsDb body rs h) w

after-Commits {ℓ κ} :
    {A : Type ℓ} {B : Type κ} (g : Db → Db) (f : A → Action B) (db : Db) (r : Result A × World)
    → ((a : A) → r.0 ≡ ok a → Commits g (f a))
    → r.1.db ≡ db
    → (after f r).1.db ≡ (if is_ok (after f r).0 then g db else db)
after-Commits g f db (ok a, w) h e = h a refl w ∙ ap (λ d. if is_ok (f a w).0 then g d else d) e
after-Commits g f db (err x, w) h e = e

-- Behind steps that keep the database, what commits still does.
pub bind-Commits {ℓ κ} :
    {A : Type ℓ} {B : Type κ} (g : Db → Db) (m : Action A) (f : A → Action B)
    → KeepsDb m
    → ((w : World) (a : A) → (m w).0 ≡ ok a → Commits g (f a))
    → Commits g (m >>= f)
bind-Commits g m f k h w = after-Commits g f w.db (m w) (h w) (k w)

pub if-KeepsDb {ℓ} :
    {A : Type ℓ} (b : Bool) (m n : Action A) → KeepsDb m → KeepsDb n → KeepsDb (if b then m else n)
if-KeepsDb true m n h k = h
if-KeepsDb false m n h k = k

pub if-Commits {ℓ} :
    {A : Type ℓ} (g : Db → Db) (b : Bool) (m n : Action A)
    → Commits g m
    → Commits g n
    → Commits g (if b then m else n)
if-Commits g true m n h k = h
if-Commits g false m n h k = k

-- A change after steps that keep the database is a commit.
pub then_change : (m : Action {0} Unit) (g : Db → Db) → KeepsDb m → Commits g (m >> change g)
then_change m g k = bind-Commits g m (λ u. change g) k (λ w a e v. refl)

-- A query keeps the database, so what follows it decides.
pub after_query {ℓ κ} :
    {A : Type ℓ} {B : Type κ} (g : Db → Db) (q : Db → Result A) (f : A → Action B)
    → ((a : A) → Commits g (f a))
    → Commits g (query q >>= f)
after_query g q f h = bind-Commits g (query q) f (λ w. refl) (λ w a e. h a)
