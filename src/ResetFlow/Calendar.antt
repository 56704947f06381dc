-- ===== src/ResetFlow/Calendar.antt =====
-- How often the monthly and the weekly schedule come round.
use flux_panel_plus.Prelude.{
  ℕ, ℤ, zero, suc, pos, eq_ℤ, ◌≤ℤ◌, ◌-◌, ◌≤◌, ◌≡◌, refl, Bool, false, arith, leb, if◌then◌else◌,
  Bool-cases, inl, inr,
}
use flux_panel_plus.ResetFlow.Defs.{days_in_current_month, is_reset_day}

-- On how many of the days 1 to n a test holds.
abbrev pub count_days : ℕ → (ℕ → Bool) → ℕ
count_days zero p = 0
count_days (suc n) p = let rest = count_days n p in if p (suc n) then suc rest else rest

count_days-eq :
    (n k : ℕ) → 1 ≤ k → count_days n (λ d. eq_ℤ (pos k) (pos d)) ≡ (if leb k n then 1 else 0)
count_days-eq zero k h = ground arith
count_days-eq (suc n) k h = ground (arith, count_days-eq n k h)

count_days-cong :
    (n : ℕ) (p q : ℕ → Bool)
    → ((d : ℕ) → 1 ≤ d → d ≤ n → p d ≡ q d)
    → count_days n p ≡ count_days n q
count_days-cong zero p q h = refl
count_days-cong (suc n) p q h = ground (
  arith,
  h (suc n) (omega arith) (omega arith),
  count_days-cong n p q (λ d one le. h d one (omega arith)),
)

count_days-none :
    (n : ℕ) (p : ℕ → Bool) → ((d : ℕ) → 1 ≤ d → d ≤ n → p d ≡ false) → count_days n p ≡ 0
count_days-none zero p h = refl
count_days-none (suc n) p h = ground (
  arith,
  h (suc n) (omega arith) (omega arith),
  count_days-none n p (λ d one le. h d one (omega arith)),
)

is_reset_day_once : (n k : ℕ) → 1 ≤ k → count_days (suc n) (λ d. is_reset_day (pos k) d (suc n)) ≡ 1
unfolding is_reset_day
is_reset_day_once n k h = elim (Bool-cases (leb k n)) [
  | inl early ↦ ground (
    arith,
    count_days-cong n (λ d. is_reset_day (pos k) d (suc n)) (λ d. eq_ℤ (pos k) (pos d))
        (λ d one le. ground arith),
    count_days-eq n k h,
  )
  | inr late ↦
      ground
        (arith, count_days-none n (λ d. is_reset_day (pos k) d (suc n)) (λ d one le. ground arith))
]

-- A reset day of 0 or less is never met.
pub is_reset_day_never :
    (n : ℕ) (reset_day : ℤ)
    → reset_day ≤ℤ pos 0
    → count_days n (λ d. is_reset_day reset_day d n) ≡ 0
unfolding is_reset_day
is_reset_day_never n reset_day h = count_days-none n _ (λ d one le. ground arith)

-- Every month has 28 to 31 days.
pub days_in_current_month_bounds :
    (year month : ℕ)
    → (28 ≤ days_in_current_month year month) × (days_in_current_month year month ≤ 31)
unfolding days_in_current_month
days_in_current_month_bounds year month = ground arith

-- In every month a monthly reset day of 1 or more is met on exactly one day.
pub monthly_reset_once :
    (year month k : ℕ)
    → 1 ≤ k
    → let days = days_in_current_month year month in
      count_days days (λ d. is_reset_day (pos k) d days) ≡ 1
monthly_reset_once year month k h =
    let days = days_in_current_month year month in
    let (low, high) = days_in_current_month_bounds year month in
    let e : days ≡ suc (days - 1) = omega arith in rw e (is_reset_day_once (days - 1) k h)
