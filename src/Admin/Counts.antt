-- ===== src/Admin/Counts.antt =====
-- How many admins a team has after a member is removed, or put with a role.
use abhiyan.Prelude.{
  ℕ, ◌+◌, ◌≤◌, Bool, false, ◌&&◌, not, List, [], ◌∷◌, ◌≡◌, ◌≢◌, ◌⊎◌, subst, filter, count, any,
  update_where, count-append, Bool-cases, inl, inr, arith,
}
use native.Mathlib.Decide.{ℕ_discrete}
use abhiyan.Schema.Enums.{TeamRole, team_admin}
use abhiyan.Schema.{TeamMember, Store}
use abhiyan.Sql.Teams.{
  is_member_row, is_admin_of, admin_count, with_role, with_member, without_member,
}

module _ {A : Type 0} (p q : A → Bool) where
  pub count-filter-not :
      (xs : List A) → count p xs ≡ count p (filter (λ x. not (q x)) xs) + count (λ x. p x && q x) xs
  count-filter-not [] = omega arith
  count-filter-not (x ∷ xs) = ground (arith, count-filter-not xs)

  pub count-and-le : (xs : List A) → count (λ x. p x && q x) xs ≤ count q xs
  count-and-le [] = omega arith
  count-and-le (x ∷ xs) = ground (arith, count-and-le xs)

  pub count-update_where :
      (f : A → A) (xs : List A)
      → count p xs ≤ count p (update_where q f xs) + count (λ x. p x && q x) xs
  count-update_where f [] = omega arith
  count-update_where f (x ∷ xs) = ground (arith, count-update_where f xs)

  pub count_none : (xs : List A) → ((x : A) → (p x && q x) ≡ false) → count (λ x. p x && q x) xs ≡ 0
  count_none [] h = omega arith
  count_none (x ∷ xs) h = ground (arith, count_none xs h, h x)

abbrev pub overlap : ℕ → ℕ → ℕ → List TeamMember → ℕ
overlap t' t u ms = count (λ m. is_admin_of t' m && is_member_row t u m) ms

-- A member can leave the team, or be no admin of it, where another admin stays.
abbrev pub Free : ℕ → ℕ → Store → Type 0
Free t u s = (2 ≤ admin_count t s) ⊎ (overlap t t u s.team_members ≡ 0)

-- The primary key of team_members
abbrev pub UniqueMembers : Store → Type 0
UniqueMembers s = (t u : ℕ) → count (is_member_row t u) s.team_members ≤ 1

overlap_other : (t' t u : ℕ) (ms : List TeamMember) → t' ≢ t → overlap t' t u ms ≡ 0
overlap_other t' t u ms ne = count_none (is_admin_of t') (is_member_row t u) ms (λ m. ground arith)

-- One admin at least stays in every team that had one.
abbrev pub StaysAdmin : ℕ → Store → Store → Type 0
StaysAdmin t' s s' = 1 ≤ admin_count t' s → 1 ≤ admin_count t' s'

enough_of :
    (t u : ℕ) (s : Store)
    → UniqueMembers s
    → Free t u s
    → 1 ≤ admin_count t s
    → 1 + overlap t t u s.team_members ≤ admin_count t s
enough_of t u s unique (inl two) h =
    omega (arith, unique t u, count-and-le (is_admin_of t) (is_member_row t u) s.team_members)
enough_of t u s unique (inr clear) h = omega arith

enough :
    (t' t u : ℕ) (s : Store)
    → UniqueMembers s
    → Free t u s
    → 1 ≤ admin_count t' s
    → 1 + overlap t' t u s.team_members ≤ admin_count t' s
enough t' t u s unique free h = elim (ℕ_discrete t' t) [
  | no ne ↦ omega (arith, overlap_other t' t u s.team_members ne)
  | yes same ↦ rw same (enough_of t u s unique free (subst (λ i. 1 ≤ admin_count i s) same h))
]

pub without_member-StaysAdmin :
    (t' t u : ℕ) (s : Store) → UniqueMembers s → Free t u s → StaysAdmin t' s (without_member t u s)
without_member-StaysAdmin t' t u s unique free h = omega (
  arith,
  enough t' t u s unique free h,
  count-filter-not (is_admin_of t') (is_member_row t u) s.team_members,
)

pub with_member-StaysAdmin :
    (t' t u : ℕ) (r : TeamRole) (s : Store)
    → UniqueMembers s
    → Free t u s
    → StaysAdmin t' s (with_member t u r s)
with_member-StaysAdmin t' t u r s unique free h =
    elim (Bool-cases (any (is_member_row t u) s.team_members)) [
      | inl there ↦ rw there (
          omega (
            arith,
            enough t' t u s unique free h,
            count-update_where (is_admin_of t') (is_member_row t u) (with_role r) s.team_members,
          ))
      | inr absent ↦ rw absent (
          omega (
            arith,
            count-append (is_admin_of t') s.team_members
                (record { team_id = t; user_id = u; team_role = r } ∷ []),
          ))
    ]

-- A promotion takes no admin away.
pub promoted-StaysAdmin : (t' t u : ℕ) (s : Store) → StaysAdmin t' s (with_member t u team_admin s)
promoted-StaysAdmin t' t u s h = elim (Bool-cases (any (is_member_row t u) s.team_members)) [
  | inl there ↦ rw there (omega (arith, promotes t' (is_member_row t u) s.team_members))
  | inr absent ↦ rw absent (
      omega (
        arith,
        count-append (is_admin_of t') s.team_members
            (record { team_id = t; user_id = u; team_role = team_admin } ∷ []),
      ))
]
  where
    promotes :
        (t' : ℕ) (q : TeamMember → Bool) (ms : List TeamMember)
        → count (is_admin_of t') ms
          ≤ count (is_admin_of t') (update_where q (with_role team_admin) ms)
    promotes t' q [] = omega arith
    promotes t' q (m ∷ ms) = ground (arith, promotes t' q ms)

-- A team that the member is not put into
pub other-StaysAdmin :
    (t' t u : ℕ) (r : TeamRole) (s : Store) → t' ≢ t → StaysAdmin t' s (with_member t u r s)
other-StaysAdmin t' t u r s ne h = elim (Bool-cases (any (is_member_row t u) s.team_members)) [
  | inl there ↦ rw there (
      omega (
        arith,
        overlap_other t' t u s.team_members ne,
        count-update_where (is_admin_of t') (is_member_row t u) (with_role r) s.team_members,
      ))
  | inr absent ↦ rw absent (
      omega (
        arith,
        count-append (is_admin_of t') s.team_members
            (record { team_id = t; user_id = u; team_role = r } ∷ []),
      ))
]
