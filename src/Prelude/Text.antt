-- ===== src/Prelude/Text.antt =====
-- Go strings as lists of bytes: comparison, search, splitting and trimming as the `strings` package
-- does them on ASCII, and decimal numbers as `%d` prints and `strconv` reads them.
use Prim.Native.Char.{code}
use Prim.Native.String.{String}
use Prim.Native.Nat.{ℕ, zero, suc, ◌+◌, ◌-◌, ◌*◌, ◌/◌, ◌%◌, ◌<◌}
use mathlib.Core.Path.{◌≡◌, refl, ap}
use mathlib.Core.Logic.{◌≢◌}
use mathlib.Core.Bool.{Bool, true, false, ◌&&◌, ◌||◌}
use mathlib.Core.Option.{Option, none, some}
use mathlib.Core.List.{List, [], ◌∷◌, ◌++◌}
use native.Mathlib.Omega.{arith}
use flux_panel_plus.Prelude.Tests.{ltb, leb, ◌==◌, if◌then◌else◌}

abbrev pub Text : Type 0
Text = List ℕ

-- The bytes of an ASCII literal.
abbrev pub codes : String → Text
codes String.[] = []
codes (String.◌∷◌ c s) = code c ∷ codes s

abbrev pub text_eq : Text → Text → Bool
text_eq [] [] = true
text_eq [] (d ∷ t) = false
text_eq (c ∷ s) [] = false
text_eq (c ∷ s) (d ∷ t) = (c == d) && text_eq s t

pub text_eq→eq : (s t : Text) → text_eq s t ≡ true → s ≡ t
text_eq→eq [] [] h = refl
text_eq→eq [] (d ∷ t) h = cc
text_eq→eq (c ∷ s) [] h = cc
text_eq→eq (c ∷ s) (d ∷ t) h = ground (arith, text_eq→eq s t)

pub text_eq_refl : (s : Text) → text_eq s s ≡ true
text_eq_refl [] = refl
text_eq_refl (c ∷ s) = ground (arith, text_eq_refl s)

abbrev pub is_empty : Text → Bool
is_empty [] = true
is_empty (c ∷ s) = false

-- `strings.Contains(s, c)` for one byte.
abbrev pub has_char : ℕ → Text → Bool
has_char c [] = false
has_char c (d ∷ s) = (c == d) || has_char c s

pub has_char-append : (c : ℕ) (s t : Text) → has_char c (s ++ t) ≡ (has_char c s || has_char c t)
has_char-append c [] t = refl
has_char-append c (d ∷ s) t = ground (arith, has_char-append c s t)

-- `strings.HasPrefix(s, p)`.
abbrev pub has_prefix : Text → Text → Bool
has_prefix s [] = true
has_prefix [] (d ∷ p) = false
has_prefix (c ∷ s) (d ∷ p) = (c == d) && has_prefix s p

-- `strings.Contains(s, p)`.
abbrev pub contains : Text → Text → Bool
contains [] p = is_empty p
contains (c ∷ s) p = has_prefix (c ∷ s) p || contains s p

push_first : ℕ → List Text → List Text
push_first c [] = (c ∷ []) ∷ []
push_first c (p ∷ ps) = (c ∷ p) ∷ ps

-- `strings.Split(s, sep)` for a separator of one byte: never empty.
unfoldable pub split : ℕ → Text → List Text
unfolding push_first
split sep [] = [] ∷ []
split sep (c ∷ s) = if c == sep then [] ∷ split sep s else push_first c (split sep s)

pub split_plain : (sep : ℕ) (p : Text) → has_char sep p ≡ false → split sep p ≡ p ∷ []
unfolding split
split_plain sep [] h = refl
split_plain sep (c ∷ p) h = ground (arith, split_plain sep p)

pub split_at :
    (sep : ℕ) (p rest : Text)
    → has_char sep p ≡ false
    → split sep (p ++ sep ∷ rest) ≡ p ∷ split sep rest
unfolding split
split_at sep [] rest h = ground arith
split_at sep (c ∷ p) rest h = ground (arith, split_at sep p rest)

-- The ASCII bytes that `strings.TrimSpace` removes.
abbrev pub is_space : ℕ → Bool
is_space c = (leb 9 c && leb c 13) || (c == 32)

abbrev pub trim_left : Text → Text
trim_left [] = []
trim_left (c ∷ s) = if is_space c then trim_left s else c ∷ s

abbrev pub keep_or_drop : ℕ → Text → Text
keep_or_drop c [] = if is_space c then [] else c ∷ []
keep_or_drop c (d ∷ s) = c ∷ d ∷ s

abbrev pub trim_right : Text → Text
trim_right [] = []
trim_right (c ∷ s) = keep_or_drop c (trim_right s)

unfoldable pub trim_space : Text → Text
trim_space s = trim_right (trim_left s)

abbrev pub is_digit : ℕ → Bool
is_digit c = leb b'0' c && leb c b'9'

abbrev pub decimal_fuel : ℕ → ℕ → Text
decimal_fuel zero n = []
decimal_fuel (suc f) n =
    let front = decimal_fuel f (n / 10) in
    if ltb n 10 then (b'0' + n) ∷ [] else front ++ (b'0' + n % 10) ∷ []

-- `%d` of a number that is not negative.
unfoldable pub decimal : ℕ → Text
decimal n = decimal_fuel (suc n) n

abbrev pub scan : ℕ → Text → Option ℕ
scan n [] = some n
scan n (c ∷ s) = if is_digit c then scan (n * 10 + (c - b'0')) s else none

-- One or more digits, as a number.
unfoldable pub parse_decimal : Text → Option ℕ
parse_decimal [] = none
parse_decimal (c ∷ s) = scan 0 (c ∷ s)

abbrev scan_more : Option ℕ → ℕ → Option ℕ
scan_more none c = none
scan_more (some n) c = if is_digit c then some (n * 10 + (c - b'0')) else none

scan_last : (n : ℕ) (s : Text) (c : ℕ) → scan n (s ++ c ∷ []) ≡ scan_more (scan n s) c
scan_last n [] c = refl
scan_last n (d ∷ s) c = ground (arith, scan_last (n * 10 + (d - b'0')) s c)

scan-decimal : (f n : ℕ) → n < f → scan 0 (decimal_fuel f n) ≡ some n
scan-decimal zero n h = absurd (omega arith)
scan-decimal (suc f) n h =
    ground (arith, scan_last 0 (decimal_fuel f (n / 10)) (b'0' + n % 10), scan-decimal f (n / 10))

append_nonempty : (s : Text) (c : ℕ) → s ++ c ∷ [] ≢ []
append_nonempty [] c = cc
append_nonempty (d ∷ s) c = cc

parse-scan : (s : Text) {n : ℕ} → s ≢ [] → scan 0 s ≡ some n → parse_decimal s ≡ some n
unfolding parse_decimal
parse-scan [] h e = absurd (h refl)
parse-scan (c ∷ s) h e = e

decimal_fuel_nonempty : (f n : ℕ) → decimal_fuel (suc f) n ≢ []
decimal_fuel_nonempty f n =
    ground (arith, append_nonempty (decimal_fuel f (n / 10)) (b'0' + n % 10))

-- A number is read back from its decimal print.
pub parse-decimal : (n : ℕ) → parse_decimal (decimal n) ≡ some n
unfolding decimal
parse-decimal n =
    parse-scan (decimal_fuel (suc n) n) (decimal_fuel_nonempty n n)
      (scan-decimal (suc n) n (omega arith))

pub decimal-injective : (m n : ℕ) → decimal m ≡ decimal n → m ≡ n
decimal-injective m n h = cc (parse-decimal m, parse-decimal n, ap parse_decimal h)

decimal_fuel_digits : (c f n : ℕ) → is_digit c ≡ false → has_char c (decimal_fuel f n) ≡ false
decimal_fuel_digits c zero n h = refl
decimal_fuel_digits c (suc f) n h = ground (
  arith,
  has_char-append c (decimal_fuel f (n / 10)) ((b'0' + n % 10) ∷ []),
  decimal_fuel_digits c f (n / 10),
)

-- A decimal print holds digits only.
pub decimal_digits : (c n : ℕ) → is_digit c ≡ false → has_char c (decimal n) ≡ false
unfolding decimal
decimal_digits c n h = decimal_fuel_digits c (suc n) n h

decimal-2026 : decimal 2026 ≡ codes "2026"
unfolding decimal
decimal-2026 = refl

trim-padded : trim_space (codes " 10.0.0.1 ") ≡ codes "10.0.0.1"
unfolding trim_space
trim-padded = refl

abbrev pub all_digits : Text → Bool
all_digits [] = true
all_digits (c ∷ s) = is_digit c && all_digits s

pub all_digits-append :
    (s t : Text) → all_digits s ≡ true → all_digits t ≡ true → all_digits (s ++ t) ≡ true
all_digits-append [] t hs ht = ht
all_digits-append (c ∷ s) t hs ht = ground (arith, all_digits-append s t)

all_digits-fuel : (f n : ℕ) → all_digits (decimal_fuel f n) ≡ true
all_digits-fuel zero n = refl
all_digits-fuel (suc f) n = ground (
  arith,
  all_digits-fuel f (n / 10),
  all_digits-append (decimal_fuel f (n / 10)) ((b'0' + n % 10) ∷ []),
)

pub all_digits-decimal : (n : ℕ) → all_digits (decimal n) ≡ true
unfolding decimal
all_digits-decimal n = all_digits-fuel (suc n) n

pub text_eq_sym : (s t : Text) → text_eq s t ≡ text_eq t s
text_eq_sym [] [] = refl
text_eq_sym [] (d ∷ t) = refl
text_eq_sym (c ∷ s) [] = refl
text_eq_sym (c ∷ s) (d ∷ t) = ground (arith, text_eq_sym s t)
