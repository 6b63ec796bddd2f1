-- ===== src/Floats/Rounding.antt =====
-- The rounding of Floats.antt keeps the order, keeps what has 53 bits, and gives 53 bits.
use native.Mathlib.Nat.{
  le-div_iff_mul-le, div-add-mod, le_refl, le_trans, mul-div_right, mul-lt-mul_of_pos_left,
}
use abhiyan.Prelude.{
  ℕ, zero, suc, ◌*◌, ◌/◌, ◌%◌, ◌^◌, ◌≤◌, ◌<◌, true, false, ◌≡◌, ◌⊎◌, inl, inr, refl, ap, ◌∙◌, subst,
  ltb, Bool-cases, arith,
}
use abhiyan.Floats.{closest, nearest, round}

pub closest_mono : (q r r' b : ℕ) → r ≤ r' → closest q r b ≤ closest q r' b
closest_mono q r r' b h = ground arith

pub closest_next : (q q' r r' b : ℕ) → q < q' → closest q r b ≤ closest q' r' b
closest_next q q' r r' b h = ground arith

pub div_mono : (a c b : ℕ) → 0 < b → a ≤ c → a / b ≤ c / b
div_mono a c b pos h =
    let below = (le-div_iff_mul-le {x = a / b} {y = a} pos).0 (le_refl _) in
    (le-div_iff_mul-le pos).1 (le_trans below h)

pub same_or_next : (m n : ℕ) → m ≤ n → (m ≡ n) ⊎ (m < n)
same_or_next m n h = elim (Bool-cases (ltb m n)) [
  | inl less ↦ inr (ground (arith, less))
  | inr same ↦ inl (ground (arith, same))
]

pub nearest_mono : (a c b : ℕ) → 0 < b → a ≤ c → nearest a b ≤ nearest c b
unfolding nearest
nearest_mono a c b pos h = elim (same_or_next (a / b) (c / b) (div_mono a c b pos h)) [
  | inl same ↦
      let rest : a % b ≤ c % b =
        omega (arith, h, div-add-mod a b, div-add-mod c b, ap (λ q. b * q) same) in
      subst (λ q. closest (a / b) (a % b) b ≤ closest q (c % b) b) same
        (closest_mono (a / b) (a % b) (c % b) b rest)
  | inr next ↦ closest_next (a / b) (c / b) (a % b) (c % b) b next
]

pub whole_quotient : (b m : ℕ) → 0 < b → b * m / b ≡ m
whole_quotient b m pos = mul-div_right m pos

pub nearest_exact : (b m : ℕ) → 0 < b → nearest (b * m) b ≡ m
unfolding nearest
nearest_exact b m pos =
    let q = whole_quotient b m pos in
    let r : b * m % b ≡ 0 = omega (arith, div-add-mod (b * m) b, ap (λ i. b * i) q) in
    rw (q, r) (ground (arith, pos))

pub twice_pos : (b : ℕ) → 0 < b → 0 < 2 * b
twice_pos b pos = omega arith

pub twice_product : (b m : ℕ) → b * (2 * m) ≡ 2 * b * m
twice_product b m = grind arith

pub round_small : (fuel b m : ℕ) → 0 < b → m < 2 ^ 53 → round fuel (b * m) b ≡ m
unfolding round
round_small zero b m pos h = nearest_exact b m pos
round_small (suc fuel) b m pos h =
    let less : ltb (b * m) (b * 2 ^ 53) ≡ true =
      ground (arith, mul-lt-mul_of_pos_left {k = b} h pos) in
    rw less (nearest_exact b m pos)

-- m doubled that many times
abbrev pub doubled : ℕ → ℕ → ℕ
doubled zero m = m
doubled (suc j) m = 2 * doubled j m

pub round_exact :
    (fuel j b m : ℕ) → 0 < b → m < 2 ^ 53 → round fuel (b * doubled j m) b ≡ doubled j m
unfolding round
round_exact fuel zero b m pos h = round_small fuel b m pos h
round_exact zero (suc j) b m pos h = nearest_exact b (doubled (suc j) m) pos
round_exact (suc fuel) (suc j) b m pos h =
    elim (Bool-cases (ltb (b * doubled (suc j) m) (b * 2 ^ 53))) [
      | inl less ↦ rw less (nearest_exact b (doubled (suc j) m) pos)
      | inr more ↦ rw more (
          ap (λ z. 2 * round fuel z (2 * b)) (twice_product b (doubled j m))
          ∙ ap (λ z. 2 * z) (round_exact fuel j (2 * b) m (twice_pos b pos) h))
    ]

pub round_mono : (fuel a c b : ℕ) → 0 < b → a ≤ c → round fuel a b ≤ round fuel c b
unfolding round
round_mono zero a c b pos h = nearest_mono a c b pos h
round_mono (suc fuel) a c b pos h = elim (Bool-cases (ltb a (b * 2 ^ 53))) [
  | inl small ↦ elim (Bool-cases (ltb c (b * 2 ^ 53))) [
    | inl both ↦ rw (small, both) (nearest_mono a c b pos h)
    | inr large ↦
        rw (small, large)
          (let low = nearest_mono a (b * 2 ^ 53) b pos (ground (arith, small)) in
            let middle = nearest_exact b (2 ^ 53) pos in
            let high =
              round_mono fuel (2 * b * 2 ^ 52) c (2 * b) (twice_pos b pos)
                (ground (arith, large)) in
            let half = round_small fuel (2 * b) (2 ^ 52) (twice_pos b pos) (omega arith) in
            omega (arith, low, middle, high, half))
  ]
  | inr large ↦
      let over : ltb c (b * 2 ^ 53) ≡ false = ground (arith, h, large) in
      let rest = round_mono fuel a c (2 * b) (twice_pos b pos) h in
      rw (large, over) (omega (arith, rest))
]

-- Where the steps are enough, the result has 53 bits.
abbrev pub IsFloat : ℕ → Type 0
IsFloat x = (m : ℕ) × (j : ℕ) × (m ≤ 2 ^ 53) × (x ≡ doubled j m)

pub nearest_bound : (a b : ℕ) → 0 < b → a < b * 2 ^ 53 → nearest a b ≤ 2 ^ 53
nearest_bound a b pos h =
    omega
      (arith, nearest_mono a (b * 2 ^ 53) b pos (omega (arith, h)), nearest_exact b (2 ^ 53) pos)

pub round-IsFloat :
    (fuel a b : ℕ) → 0 < b → a < b * doubled fuel (2 ^ 53) → IsFloat (round fuel a b)
unfolding round
round-IsFloat zero a b pos h = (nearest a b, 0, nearest_bound a b pos h, refl)
round-IsFloat (suc fuel) a b pos h = elim (Bool-cases (ltb a (b * 2 ^ 53))) [
  | inl small ↦ rw small (nearest a b, 0, nearest_bound a b pos (ground (arith, small)), refl)
  | inr large ↦
      let less : a < 2 * b * doubled fuel (2 ^ 53) =
        subst (λ z. a < z) (twice_product b (doubled fuel (2 ^ 53))) h in
      let (m, j, few, e) = round-IsFloat fuel a (2 * b) (twice_pos b pos) less in
      rw large (m, suc j, few, ap (λ z. 2 * z) e)
]
