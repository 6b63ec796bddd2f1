-- ===== src/Floats/Hours.antt =====
-- The order and the size of the quotients, sums and products of Floats.antt, and of Duration.Hours.
use abhiyan.Prelude.{sym, ℕ, ◌+◌, ◌*◌, ◌/◌, ◌%◌, ◌^◌, ◌≤◌, ◌<◌, ◌≡◌, inl, inr, subst, arith}
use abhiyan.Floats.{unit, float, quotient, sum, product, nanoseconds, hours}
use abhiyan.Floats.Rounding.{same_or_next, doubled, round_exact, round_mono, IsFloat, round-IsFloat}

pub quotient_mono : (x x' y : ℕ) → 0 < y → x ≤ x' → quotient x y ≤ quotient x' y
unfolding quotient
quotient_mono x x' y pos h = round_mono 128 (x * unit) (x' * unit) y pos (omega (arith, h))

pub product_mono : (x x' y : ℕ) → x ≤ x' → product x y ≤ product x' y
unfolding product
product_mono x x' y h = round_mono 128 (x * y) (x' * y) unit (omega arith) (grind (arith, h))

pub sum_mono : (x x' : ℕ) (y y' : ℕ) → x + y ≤ x' + y' → sum x y ≤ sum x' y'
unfolding sum
sum_mono x x' y y' h = round_mono 128 (x + y) (x' + y') 1 (omega arith) h

pub whole_hour : quotient (float nanoseconds) (float nanoseconds) ≡ unit
unfolding quotient
whole_hour = round_exact 128 128 (float nanoseconds) 1 (omega arith) (omega arith)

pub part_of_hour : (r : ℕ) → r ≤ nanoseconds → quotient (float r) (float nanoseconds) ≤ unit
part_of_hour r h = omega (
  arith,
  quotient_mono (float r) (float nanoseconds) (float nanoseconds) (omega arith) (omega (arith, h)),
  whole_hour,
)

-- A longer duration has no fewer hours.
pub hours_mono : (d d' : ℕ) → d ≤ d' → hours d ≤ hours d'
unfolding hours
hours_mono d d' h = elim (same_or_next (d / nanoseconds) (d' / nanoseconds) (omega (arith, h))) [
  | inl same ↦
      let parts =
        quotient_mono (float (d % nanoseconds)) (float (d' % nanoseconds)) (float nanoseconds)
          (omega arith) (omega (arith, h, same)) in
      sum_mono (float (d / nanoseconds)) (float (d' / nanoseconds))
        (quotient (float (d % nanoseconds)) (float nanoseconds))
        (quotient (float (d' % nanoseconds)) (float nanoseconds)) (omega (arith, parts, same))
  | inr next ↦
      sum_mono (float (d / nanoseconds)) (float (d' / nanoseconds))
        (quotient (float (d % nanoseconds)) (float nanoseconds))
        (quotient (float (d' % nanoseconds)) (float nanoseconds))
        (omega (arith, part_of_hour (d % nanoseconds) (omega arith), next))
]

-- The steps are enough wherever the divisor is 1 or more and the other float is below 2^53.
pub quotient-IsFloat : (x y : ℕ) → unit ≤ y → x < 2 ^ 53 * unit → IsFloat (quotient x y)
unfolding quotient
quotient-IsFloat x y one low =
    round-IsFloat 128 (x * unit) y (omega (arith, one)) (omega (arith, one, low))

pub sum-IsFloat : (x y : ℕ) → x + y < 2 ^ 53 * unit → IsFloat (sum x y)
unfolding sum
sum-IsFloat x y low = round-IsFloat 128 (x + y) 1 (omega arith) (omega (arith, low))

pub doubled-float : (n : ℕ) → doubled 128 n ≡ float n
doubled-float n = omega arith

-- A duration has no more hours than its own and one.
pub hours_bound : (d : ℕ) → d < 2 ^ 63 → hours d ≤ float (d / nanoseconds + 1)
unfolding hours sum
hours_bound d low =
    let n : ℕ = d / nanoseconds + 1 in
    let part = part_of_hour (d % nanoseconds) (omega arith) in
    let up =
      round_mono 128
        (float (d / nanoseconds) + quotient (float (d % nanoseconds)) (float nanoseconds))
        (1 * doubled 128 n) 1 (omega arith) (omega (arith, part, doubled-float n)) in
    omega (arith, up, round_exact 128 128 1 n (omega arith) (omega (arith, low)), doubled-float n)

pub hours-IsFloat : (d : ℕ) → d < 2 ^ 63 → IsFloat (hours d)
unfolding hours
hours-IsFloat d low =
    let part = part_of_hour (d % nanoseconds) (omega arith) in
    sum-IsFloat (float (d / nanoseconds)) (quotient (float (d % nanoseconds)) (float nanoseconds))
      (omega (arith, low, part))

pub hours_low : (d : ℕ) → d < 2 ^ 63 → hours d < 2 ^ 53 * unit
hours_low d low = omega (arith, hours_bound d low)

pub area_mono : (k u y : ℕ) → u ≤ y → k * u ≤ y * k
area_mono k u y h = grind arith

-- A divisor of 1 or more makes nothing larger.
pub quotient_bound : (x y n : ℕ) → n < 2 ^ 53 → unit ≤ y → x ≤ float n → quotient x y ≤ float n
unfolding quotient
quotient_bound x y n small one low =
    let wide = area_mono (float n) unit y one in
    let scaled : x * unit ≤ y * doubled 128 n =
      subst (λ z. x * unit ≤ y * z) (sym (doubled-float n)) (omega (arith, wide, low)) in
    let up = round_mono 128 (x * unit) (y * doubled 128 n) y (omega (arith, one)) scaled in
    omega (arith, up, round_exact 128 128 y n (omega (arith, one)) small, doubled-float n)

pub product-IsFloat : (x n : ℕ) → n < 2 ^ 50 → x ≤ float n → IsFloat (product x (float 5))
unfolding product
product-IsFloat x n small low =
    round-IsFloat 128 (x * float 5) unit (omega arith) (omega (arith, small, low))
