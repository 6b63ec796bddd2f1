-- ===== src/Scores/Points.antt =====
-- calculatePoints of server/internal/services/scores.go, with its float64 arithmetic (Floats.antt).
use abhiyan.Prelude.{
  false, ℕ, ◌+◌, ◌-◌, ◌/◌, ◌^◌, ◌≤◌, ◌<◌, min, ◌≡◌, ◌⊎◌, Bool-cases, inl, inr, ltb, if◌then◌else◌,
  arith,
}
use abhiyan.Floats.{float, unit, hours, quotient, product}
use abhiyan.Floats.Rounding.{IsFloat}
use abhiyan.Floats.Hours.{
  hours_bound, quotient_bound, quotient-IsFloat, product-IsFloat, hours_mono, quotient_mono,
  product_mono,
}
use abhiyan.Schema.Enums.{ScoreEventType, on_time_completion, late_completion}

-- A day in nanoseconds
abbrev pub day : ℕ
day = 86400000000000

-- t.Sub(u) where t is not before u, which stops at the longest duration
abbrev pub duration : ℕ → ℕ → ℕ
duration t u = min (t - u) (2 ^ 63 - 1)

-- t.Sub(u).Hours() / 24
unfoldable pub days_between : ℕ → ℕ → ℕ
unfolding hours quotient
days_between t u = quotient (hours (duration t u)) (float 24)

-- totalDuration: a task that is created after its due date has a duration below 1 too
unfoldable pub total_duration : ℕ → ℕ → ℕ
unfolding days_between
total_duration due created =
    let total = days_between due created in if ltb total unit then unit else total

-- int(math.Min(5, math.Floor(bonusRatio * 5)))
unfoldable pub bonus : ℕ → ℕ → ℕ
unfolding quotient product
bonus remaining total = min 5 (product (quotient remaining total) (float 5) / unit)

unfoldable pub calculate_points : ℕ → ℕ → ℕ → ScoreEventType × ℕ
unfolding days_between total_duration bonus
calculate_points approved due created =
    if ltb due approved
    then (late_completion, 3)
    else (on_time_completion, 10 + bonus (days_between due approved) (total_duration due created))

bonus_bound : (remaining total : ℕ) → bonus remaining total ≤ 5
unfolding bonus
bonus_bound remaining total = omega arith

not_less : (m n : ℕ) → ltb m n ≡ false → n ≤ m
not_less m n h = ground arith

-- What the code gives, over any bonus
abbrev points_with : ℕ → ℕ → ℕ → ScoreEventType × ℕ
points_with approved due n =
    if ltb due approved then (late_completion, 3) else (on_time_completion, 10 + n)

with_bounds :
    (approved due n : ℕ)
    → n ≤ 5
    → let (kind, points) = points_with approved due n in
      ((due < approved) × (kind ≡ late_completion) × (points ≡ 3))
      ⊎ ((approved ≤ due) × (kind ≡ on_time_completion) × (10 ≤ points) × (points ≤ 15))
with_bounds approved due n h = ground arith

with_antitone :
    (early late due n n' : ℕ)
    → early ≤ late
    → n' ≤ n
    → (points_with late due n').1 ≤ (points_with early due n).1
with_antitone early late due n n' h less = ground arith

total_bound : (due created : ℕ) → unit ≤ total_duration due created
unfolding total_duration
total_bound due created = elim (Bool-cases (ltb (days_between due created) unit)) [
  | inl short ↦ rw short (omega arith)
  | inr long ↦ rw long (not_less (days_between due created) unit long)
]

total_pos : (due created : ℕ) → 0 < total_duration due created
total_pos due created = omega (arith, total_bound due created)

bonus_mono :
    (early late total : ℕ) → 0 < total → early ≤ late → bonus early total ≤ bonus late total
unfolding bonus
bonus_mono early late total pos h =
    let more =
      product_mono (quotient early total) (quotient late total) (float 5)
        (quotient_mono early late total pos h) in
    omega (arith, more)

most_hours : (t u : ℕ) → hours (duration t u) ≤ float (2 ^ 22)
most_hours t u = omega (arith, hours_bound (duration t u) (omega arith))

days_between_bound : (t u : ℕ) → days_between t u ≤ float (2 ^ 22)
unfolding days_between
days_between_bound t u =
    quotient_bound (hours (duration t u)) (float 24) (2 ^ 22) (omega arith) (omega arith)
      (most_hours t u)

-- The steps of the rounding are enough: the quotients and the product that calculatePoints takes have
-- 53 bits, as a float64 has.
pub days_between-IsFloat : (t u : ℕ) → IsFloat (days_between t u)
unfolding days_between
days_between-IsFloat t u =
    quotient-IsFloat (hours (duration t u)) (float 24) (omega arith) (omega (arith, most_hours t u))

pub ratio-IsFloat :
    (approved due created : ℕ)
    → IsFloat (quotient (days_between due approved) (total_duration due created))
ratio-IsFloat approved due created =
    quotient-IsFloat (days_between due approved) (total_duration due created)
      (total_bound due created) (omega (arith, days_between_bound due approved))

pub fifths-IsFloat :
    (approved due created : ℕ)
    → IsFloat
        (product (quotient (days_between due approved) (total_duration due created)) (float 5))
fifths-IsFloat approved due created =
    let total = total_duration due created in
    product-IsFloat (quotient (days_between due approved) total) (2 ^ 22) (omega arith) (
      quotient_bound (days_between due approved) total (2 ^ 22) (omega arith)
        (total_bound due created) (days_between_bound due approved))

-- A later approval leaves no more days.
days_between_mono :
    (due early late : ℕ) → early ≤ late → days_between due late ≤ days_between due early
unfolding days_between
days_between_mono due early late h =
    quotient_mono (hours (duration due late)) (hours (duration due early)) (float 24) (omega arith)
      (hours_mono (duration due late) (duration due early) (omega (arith, h)))

-- The event and the points agree with the dates on every branch: an approval after the due date
-- is a late completion of 3 points, and any other is on time with 10 to 15 points.
pub calculate_points_bounds :
    (approved due created : ℕ)
    → let (kind, points) = calculate_points approved due created in
      ((due < approved) × (kind ≡ late_completion) × (points ≡ 3))
      ⊎ ((approved ≤ due) × (kind ≡ on_time_completion) × (10 ≤ points) × (points ≤ 15))
unfolding calculate_points
calculate_points_bounds approved due created =
    let n = bonus (days_between due approved) (total_duration due created) in
    with_bounds approved due n
      (bonus_bound (days_between due approved) (total_duration due created))

-- Approving a task later never earns more points, across the due date too.
pub calculate_points_antitone :
    (early late due created : ℕ)
    → early ≤ late
    → (calculate_points late due created).1 ≤ (calculate_points early due created).1
unfolding calculate_points
calculate_points_antitone early late due created h =
    let total = total_duration due created in
    with_antitone early late due (bonus (days_between due early) total)
      (bonus (days_between due late) total) h
      (bonus_mono (days_between due late) (days_between due early) total (total_pos due created)
        (days_between_mono due early late h))
