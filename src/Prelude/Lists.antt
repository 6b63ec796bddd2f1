-- ===== src/Prelude/Lists.antt =====
-- Lists as tables: rows that are selected, updated, deleted and counted by a Boolean test. It
-- models no code of the repository.
use native.Mathlib.Nat.{mul-add}
use Prim.Native.Nat.{◌*◌, ◌*◌, ℕ, suc, ◌+◌}
use mathlib.Core.Path.{refl, ap, ◌∙◌, ◌≡◌}
use mathlib.Core.Bool.{Bool, true, false}
use mathlib.Core.Option.{Option, none, some}
use mathlib.Core.List.{map, map, List, [], ◌∷◌, ◌++◌}
use native.Mathlib.Omega.{arith}
use mathlib.Core.Logic.{inl, inr}
use abhiyan.Prelude.Tests.{Bool-cases, if◌then◌else◌}

module _ {ℓ} {A : Type ℓ} where
  abbrev pub length : List A → ℕ
  length [] = 0
  length (x ∷ xs) = suc (length xs)

  -- SELECT … WHERE
  abbrev pub filter : (A → Bool) → List A → List A
  filter p [] = []
  filter p (x ∷ xs) = let rest = filter p xs in if p x then x ∷ rest else rest

  -- The first row that passes, as LIMIT 1 and a lookup by primary key find it.
  abbrev pub find : (A → Bool) → List A → Option A
  find p [] = none
  find p (x ∷ xs) = let rest = find p xs in if p x then some x else rest

  -- UPDATE … SET … WHERE
  abbrev pub update_where : (A → Bool) → (A → A) → List A → List A
  update_where p f [] = []
  update_where p f (x ∷ xs) = (if p x then f x else x) ∷ update_where p f xs

  -- SELECT EXISTS
  abbrev pub any : (A → Bool) → List A → Bool
  any p [] = false
  any p (x ∷ xs) = let rest = any p xs in if p x then true else rest

  abbrev pub count : (A → Bool) → List A → ℕ
  count p [] = 0
  count p (x ∷ xs) = let rest = count p xs in if p x then suc rest else rest

  abbrev pub All {κ} : (A → Type κ) → List A → Type κ
  All P [] = Unit
  All P (x ∷ xs) = P x × All P xs

  pub length-append : (xs ys : List A) → length (xs ++ ys) ≡ length xs + length ys
  length-append [] ys = omega arith
  length-append (x ∷ xs) ys = omega (arith, length-append xs ys)

  pub count-append : (p : A → Bool) (xs ys : List A) → count p (xs ++ ys) ≡ count p xs + count p ys
  count-append p [] ys = omega arith
  count-append p (x ∷ xs) ys = ground (arith, count-append p xs ys)

abbrev pub keep_some {ℓ} : {B : Type ℓ} → Option B → List B → List B
keep_some none ys = ys
keep_some (some y) ys = y ∷ ys

module _ {ℓ κ} {A : Type ℓ} {B : Type κ} where
  -- An inner join with a table whose key is unique: rows with no partner are dropped.
  abbrev pub join : (A → Option B) → List A → List B
  join f [] = []
  join f (x ∷ xs) = keep_some (f x) (join f xs)

  abbrev pub flat_map : (A → List B) → List A → List B
  flat_map f [] = []
  flat_map f (x ∷ xs) = f x ++ flat_map f xs

  pub length-map : (f : A → B) (xs : List A) → length (map f xs) ≡ length xs
  length-map f [] = omega arith
  length-map f (x ∷ xs) = omega (arith, length-map f xs)

All-append : {B : Type 0} (P : B → Type 0) (xs ys : List B) → All P xs → All P ys → All P (xs ++ ys)
All-append P [] ys ps qs = qs
All-append P (x ∷ xs) ys (p, ps) qs = (p, All-append P xs ys ps qs)

module _ {A B : Type 0} where
  pub All-map : (P : B → Type 0) (f : A → B) (xs : List A) → ((x : A) → P (f x)) → All P (map f xs)
  All-map P f [] h = tt
  All-map P f (x ∷ xs) h = (h x, All-map P f xs h)

  pub All-flat_map :
      (P : B → Type 0) (f : A → List B) (xs : List A)
      → ((x : A) → All P (f x))
      → All P (flat_map f xs)
  All-flat_map P f [] h = tt
  All-flat_map P f (x ∷ xs) h = All-append P (f x) (flat_map f xs) (h x) (All-flat_map P f xs h)

-- Rows that are so many times as many as others, source row for source row
pub length-flat_map_times :
    {A B C : Type 0} (n : ℕ) (f : A → List B) (g : A → List C) (xs : List A)
    → ((x : A) → length (f x) ≡ n * length (g x))
    → length (flat_map f xs) ≡ n * length (flat_map g xs)
length-flat_map_times n f g [] h = omega arith
length-flat_map_times n f g (x ∷ xs) h =
    let more = mul-add n (length (g x)) (length (flat_map g xs)) in
    grind (
      arith,
      h x,
      length-flat_map_times n f g xs h,
      more,
      length-append (f x) (flat_map f xs),
      length-append (g x) (flat_map g xs),
    )

map-append : {A B : Type 0} (f : A → B) (xs ys : List A) → map f (xs ++ ys) ≡ map f xs ++ map f ys
map-append f [] ys = refl
map-append f (x ∷ xs) ys = cc (map-append f xs ys)

pub map-flat_map :
    {A B C : Type 0} (f : B → C) (g : A → List B) (xs : List A)
    → map f (flat_map g xs) ≡ flat_map (λ x. map f (g x)) xs
map-flat_map f g [] = refl
map-flat_map f g (x ∷ xs) =
    map-append f (g x) (flat_map g xs) ∙ ap (λ z. map f (g x) ++ z) (map-flat_map f g xs)

pub map-map :
    {A B C : Type 0} (f : B → C) (g : A → B) (xs : List A)
    → map f (map g xs) ≡ map (λ x. f (g x)) xs
map-map f g [] = refl
map-map f g (x ∷ xs) = ap (λ z. f (g x) ∷ z) (map-map f g xs)

pub join-if :
    {A B : Type 0} (p : A → Bool) (f : A → Option B) (xs : List A)
    → join (λ x. if p x then f x else none) xs ≡ join f (filter p xs)
join-if p f [] = refl
join-if p f (x ∷ xs) = elim (Bool-cases (p x)) [
  | inl passes ↦ rw passes (ap (keep_some (f x)) (join-if p f xs))
  | inr fails ↦ rw fails (join-if p f xs)
]

abbrev pub some_if {ℓ} : {B : Type ℓ} → (B → Bool) → Option B → Option B
some_if p none = none
some_if p (some y) = if p y then some y else none

filter-keep_some :
    {B : Type 0} (p : B → Bool) (o : Option B) (ys zs : List B)
    → filter p ys ≡ zs
    → filter p (keep_some o ys) ≡ keep_some (some_if p o) zs
filter-keep_some p none ys zs h = h
filter-keep_some p (some y) ys zs h = elim (Bool-cases (p y)) [
  | inl passes ↦ rw passes (ap (λ z. y ∷ z) h)
  | inr fails ↦ rw fails h
]

pub filter-join :
    {A B : Type 0} (p : B → Bool) (f : A → Option B) (xs : List A)
    → filter p (join f xs) ≡ join (λ x. some_if p (f x)) xs
filter-join p f [] = refl
filter-join p f (x ∷ xs) = filter-keep_some p (f x) (join f xs) _ (filter-join p f xs)
