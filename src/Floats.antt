-- ===== src/Floats.antt =====
-- The 64-bit floats that calculatePoints of server/internal/services/scores.go computes with: float64,
-- its quotients, sums and products rounded to the nearest, ties to even, and Duration.Hours of Go's
-- time package. A float that is not negative is the number of times that it holds 2^-128. Every
-- one that comes up is zero, or at least 2^-64, the quotient of the shortest and the longest duration
-- of 63 bits, and below 2^22, the hours of the longest; so its 53 bits stand above 2^-128.
pub mod Rounding
pub mod Hours
use native.Mathlib.Nat.{
  le-div_iff_mul-le, div-add-mod, le_refl, le_trans, mul-div_right, mul-lt-mul_of_pos_left,
}
use abhiyan.Prelude.{
  sym, ℕ, zero, suc, ◌+◌, ◌*◌, ◌/◌, ◌%◌, ◌^◌, ◌≤◌, ◌<◌, true, false, ◌≡◌, ◌⊎◌, inl, inr, refl, ap,
  ◌∙◌, subst, ltb, Bool-cases, if◌then◌else◌, arith,
}

-- a / b as a whole number, the nearest, and of two the even one
abbrev pub closest : ℕ → ℕ → ℕ → ℕ
closest q r b = if ltb (2 * r) b then q else if ltb b (2 * r) then q + 1 else q + q % 2

unfoldable pub nearest : ℕ → ℕ → ℕ
nearest a b = closest (a / b) (a % b) b

-- a / b with 53 bits: halved until that many are left, which takes as many steps as it has more
unfoldable pub round : ℕ → ℕ → ℕ → ℕ
unfolding nearest
round zero a b = nearest a b
round (suc fuel) a b =
    let rest = round fuel a (2 * b) in if ltb a (b * 2 ^ 53) then nearest a b else 2 * rest

-- The float 1
abbrev pub unit : ℕ
unit = 2 ^ 128

-- float64(n), of a whole number below 2^53
abbrev pub float : ℕ → ℕ
float n = n * unit

-- x / y, x + y and x * y
unfoldable pub quotient : ℕ → ℕ → ℕ
unfolding round nearest
quotient x y = round 128 (x * unit) y

unfoldable pub sum : ℕ → ℕ → ℕ
unfolding round nearest
sum x y = round 128 (x + y) 1

unfoldable pub product : ℕ → ℕ → ℕ
unfolding round nearest
product x y = round 128 (x * y) unit

abbrev pub nanoseconds : ℕ
nanoseconds = 3600000000000

-- d.Hours() of a duration of nanoseconds
unfoldable pub hours : ℕ → ℕ
unfolding quotient sum
hours d = sum (float (d / nanoseconds)) (quotient (float (d % nanoseconds)) (float nanoseconds))
