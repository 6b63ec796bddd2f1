-- ===== src/Admin/LastAdmin.antt =====
-- The last admin of a team: what the check on them has found, and what managing and transferring a
-- member keep.
use abhiyan.Prelude.{
  ℕ, String, Bool, true, false, ◌&&◌, not, some, List, [], ◌∷◌, ◌==◌, leb, ◌≡◌, refl, sym, subst,
  ap, ◌∙◌, filter, find, any, map, join, str_eq, All, eq_iff, ==_iff, Bool-cases, inl, inr, arith,
}
use abhiyan.Schema.Enums.{is_team_admin, TeamRole, team_admin, member}
use abhiyan.Schema.{User, TeamMember, Store}
use abhiyan.Db.{last_admin, Env, attempt, select, uuid_printer, value_or, pure, ◌>>=◌}
use abhiyan.Db.Smooth.{Faultless}
use abhiyan.Db.Yields.{Yields-require, Yields-read, Yields-mono, Yields-check, Yields-pure, Yields}
use abhiyan.Sql.Participants.{user_by_id}
use abhiyan.Sql.Teams.{
  get_team_admin_count, get_team_members_details, is_member_row, is_admin_of, admin_count,
  member_row, TeamMemberRow,
}
use abhiyan.Admin.Teams.{
  check_last_admin, role_text, TeamMemberResponse, is_that_admin, member_response, check_not_last,
  fetch_team_members,
}
use abhiyan.Admin.Counts.{overlap, Free}

some-injective : {A : Type 0} {a b : A} → some a ≡ some b → a ≡ b
some-injective h = cc

find-id : (id : ℕ) (us : List User) {w : User} → find (λ u. u.id == id) us ≡ some w → w.id ≡ id
find-id id [] h = absurd cc
find-id id (u ∷ us) {w} h = elim (Bool-cases (u.id == id)) [
  | inl here ↦
      let same : some u ≡ some w = rw here at h in
      let found : u.id ≡ id = (==_iff u.id id).0 here in
      ap (λ z. z.id) (some-injective (sym same)) ∙ found
  | inr there ↦ find-id id us (rw there at h)
]

-- The foreign key of team_members
abbrev pub MembersKnown : Store → List TeamMember → Type 0
MembersKnown s ms = All (λ m. (w : User) × (user_by_id m.user_id s ≡ some w)) ms

abbrev listed : (ℕ → String) → ℕ → Store → List TeamMember → List TeamMemberResponse
listed print t s ms =
    map (member_response print)
      (join (λ m. member_row m (user_by_id m.user_id s)) (filter (λ m. m.team_id == t) ms))

abbrev row_of : TeamMember → User → TeamMemberRow
row_of m w = record {
  id = w.id;
  first_name = w.first_name;
  last_name = w.last_name;
  email_id = w.email_id;
  tm_team_role = m.team_role;
}

any-false :
    {A : Type 0} (f : A → Bool) (x : A) (xs : List A)
    → any f (x ∷ xs) ≡ false
    → (f x ≡ false) × (any f xs ≡ false)
any-false f x xs h = elim (Bool-cases (f x)) [
  | inl yes_it ↦ absurd (ground arith)
  | inr no_it ↦ (no_it, rw no_it at h)
]

differs_clear :
    (r : TeamRole) (a b : Bool)
    → (b ≡ true → a ≡ true)
    → (a && str_eq (role_text r) "TEAM_ADMIN") ≡ false
    → (is_team_admin r && b) ≡ false
differs_clear member a b q h = refl
differs_clear team_admin a false q h = refl
differs_clear team_admin a true q h = rw (q refl) at h

not_both :
    (print : ℕ → String) (user : String) (t u : ℕ) (m : TeamMember) (w : User)
    → print u ≡ user
    → w.id ≡ m.user_id
    → is_that_admin user (member_response print (row_of m w)) ≡ false
    → (is_admin_of t m && is_member_row t u m) ≡ false
not_both print user t u m w p same h = ground (
  arith,
  differs_clear m.team_role (str_eq (print w.id) user) (m.user_id == u)
      (λ e.
        let i : w.id ≡ u = same ∙ (==_iff m.user_id u).0 e in
        (eq_iff (print w.id) user).1 (ap print i ∙ p))
      h,
)

-- No member of the list is the user and an admin: the user is no admin of the team.
not_that :
    (print : ℕ → String) (user : String) (t u : ℕ) (s : Store) (ms : List TeamMember)
    → print u ≡ user
    → MembersKnown s ms
    → any (is_that_admin user) (listed print t s ms) ≡ false
    → overlap t t u ms ≡ 0
not_that print user t u s [] p known h = refl
not_that print user t u s (m ∷ ms) p ((w, row), known) h = elim (Bool-cases (m.team_id == t)) [
  | inr other ↦ rw other (not_that print user t u s ms p known (rw other at h))
  | inl here ↦
      let rest : any (is_that_admin user) (member_response print (row_of m w) ∷ listed print t s ms)
          ≡ false =
        rw (here, row) at h in
      let (differs, others) =
        any-false (is_that_admin user) (member_response print (row_of m w)) (listed print t s ms)
          rest in
      let same_id : w.id ≡ m.user_id = find-id m.user_id s.users row in
      rw (not_both print user t u m w p same_id differs)
        (not_that print user t u s ms p known others)
]

module _ (env : Env) (calm : Faultless env) (s0 : Store) where
  fetched :
      (t : ℕ)
      → Yields env
          (λ s. s ≡ s0)
          (attempt (fetch_team_members t))
          (λ o s. (s ≡ s0) × (o ≡ some (listed env.uuid_string t s0 s0.team_members)))
  unfolding attempt fetch_team_members get_team_members_details select uuid_printer pure ◌>>=◌
  fetched t = record {
    at = λ db i p.
        rw (i.1, calm db.tick)
          ((i.0, refl), (p, ap (λ s. some (listed env.uuid_string t s s.team_members)) p));
  }

  not_last :
      (b : Bool) (t u : ℕ) (user : String)
      → MembersKnown s0 s0.team_members
      → env.uuid_string u ≡ user
      → leb (admin_count t s0) 1 ≡ b
      → Yields env (λ s. s ≡ s0) (check_not_last b t user) (λ _ s. (s ≡ s0) × Free t u s0)
  unfolding check_not_last
  not_last false t u user known p b = Yields-pure tt (λ s h. (h, inl (ground arith)))
  not_last true t u user known p b = Yields-check _ _ (fetched t) (λ o e.
      Yields-mono _
        (λ _ s h. (
          h.0,
          inr (
              not_that env.uuid_string user t u s0 s0.team_members p known
                (subst (λ o. any (is_that_admin user) (value_or [] o) ≡ false) e (flipped _ h.1))),
        ))
        (Yields-require _ last_admin))
    where
      flipped : (b : Bool) → not b ≡ true → b ≡ false
      flipped true h = cc
      flipped false h = refl

  -- Where the check is made and passes, an admin stays whatever becomes of the user.
  pub check_last_admin-Free :
      (b : Bool) (t u : ℕ) (user : String)
      → MembersKnown s0 s0.team_members
      → env.uuid_string u ≡ user
      → Yields env
          (λ s. s ≡ s0)
          (check_last_admin b t user)
          (λ _ s. (s ≡ s0) × (b ≡ true → Free t u s0))
  unfolding check_last_admin get_team_admin_count
  check_last_admin-Free false t u user known p = Yields-pure tt (λ s h. (h, λ e. absurd cc))
  check_last_admin-Free true t u user known p = Yields-check _ _ (Yields-read _) (λ n e.
      Yields-mono _ (λ _ s h. (h.0, λ _. h.1))
        (not_last (leb n 1) t u user known p (ap (λ k. leb k 1) (sym e.1))))
