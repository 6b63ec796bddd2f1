-- ===== src/Calendar/Years.antt =====
-- The search of the year of a date, which time.Format writes.
use abhiyan.Prelude.{subst, ◌≡◌, ℕ, zero, suc, ◌+◌, ◌≤◌, ◌<◌, ltb, Bool-cases, inl, inr, arith}
use abhiyan.Calendar.{days_before_year, year_from, year_of}

abbrev pub InYear : ℕ → ℕ → Type 0
InYear n y = (days_before_year y ≤ n) × (n < days_before_year (suc y))

year_from-InYear :
    (fuel y z n : ℕ)
    → y + fuel ≡ z
    → days_before_year y ≤ n
    → n < days_before_year z
    → InYear n (year_from fuel y n)
unfolding year_from
year_from-InYear zero y z n last low high =
    let e : z ≡ y = omega (arith, last) in
    let early : n < days_before_year y = subst (λ i. n < days_before_year i) e high in
    absurd (omega (arith, low, early))
year_from-InYear (suc fuel) y z n last low high =
    elim (Bool-cases (ltb n (days_before_year (suc y)))) [
      | inl here ↦ rw here (low, ground arith)
      | inr later ↦
          rw later (year_from-InYear fuel (suc y) z n (omega (arith, last)) (ground arith) high)
    ]

enough_years : (n : ℕ) → n < days_before_year (suc n)
unfolding days_before_year
enough_years n = omega arith

first_year : (n : ℕ) → days_before_year 0 ≤ n
unfolding days_before_year
first_year n = omega arith

-- The year that is written for a date is the one whose days it is among.
pub year_of-InYear : (n : ℕ) → InYear n (year_of n)
year_of-InYear n =
    year_from-InYear (suc n) 0 (suc n) n (omega arith) (first_year n) (enough_years n)
