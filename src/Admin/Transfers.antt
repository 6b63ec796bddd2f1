-- ===== src/Admin/Transfers.antt =====
-- What transferring a member from one team to another has checked, and what it leaves.
use abhiyan.Tasks.Guards.{require}
use abhiyan.Db.Yields.{
  Yields-write_checked, Yields-require, Yields-mono, Yields-read, Yields-exec, Yields-bind,
  Yields-parse_uuid, Yields-check, Yields, yielded, Idle,
}
use abhiyan.Prelude.{ℕ, String, Bool, true, ◌&&◌, some, ◌≡◌, ◌≢◌, refl, sym, subst, ap, ◌∙◌, arith}
use abhiyan.Schema.Enums.{team_role_of, member}
use abhiyan.Schema.{Store}
use abhiyan.Db.{◌>>=◌, Env, Db, M, ok, not_in_team_org}
use abhiyan.Db.Smooth.{Faultless}
use abhiyan.Sql.Teams.{
  upsert_team_member, check_user_belongs_to_team_org, remove_team_member, belongs_to_team_org,
  without_member, with_member,
}
use abhiyan.Admin.Teams.{transfer_team_member}
use abhiyan.Admin.Counts.{
  without_member-StaysAdmin, other-StaysAdmin, Free, UniqueMembers, StaysAdmin,
}
use abhiyan.Admin.LastAdmin.{MembersKnown, check_last_admin-Free}

-- The user's row of the first team is gone, and the row of the second is a member's.
abbrev pub moved : ℕ → ℕ → ℕ → Store → Store
moved f t u s = with_member t u member (without_member f u s)

and_three : (a b c : Bool) → (a && b && c) ≡ true → (a ≡ true) × (b ≡ true) × (c ≡ true)
and_three a b c h = ground arith

abbrev pub OfOneOrg : ℕ → ℕ → ℕ → ℕ → Store → Type 0
OfOneOrg f t u r s =
    (belongs_to_team_org f r s ≡ true)
    × (belongs_to_team_org t r s ≡ true)
    × (belongs_to_team_org f u s ≡ true)

abbrev pub TransferredBy : String → String → String → String → Env → Store → Store → Type 0
TransferredBy from_team to_team user req_user env before after =
    (f : ℕ) × (t : ℕ) × (u : ℕ) × (r : ℕ) × (env.parse_uuid from_team ≡ some f)
    × (env.parse_uuid to_team ≡ some t)
    × (env.parse_uuid user ≡ some u)
    × (env.parse_uuid req_user ≡ some r)
    × OfOneOrg f t u r before
    × (after ≡ moved f t u before)

module _ (env : Env) (s0 : Store) where
  move :
      (f t u : ℕ)
      → Yields env
          (λ s. s ≡ s0)
          (remove_team_member f u >>= λ _. upsert_team_member t u "MEMBER")
          (λ _ s. s ≡ moved f t u s0)
  unfolding remove_team_member upsert_team_member team_role_of
  move f t u =
      Yields-bind _ _
        (Yields-exec {Q = λ s. s ≡ without_member f u s0} _ (λ i s h. ap (without_member f u) h))
        (λ _. Yields-write_checked _ (λ i s h x s' e.
          let same : with_member t u member s ≡ s' = cc in
          sym same ∙ ap (with_member t u member) h))

  -- The checks on the organization, before the last admin is looked for
  of_one_org :
      {B : Type 0} {R : B → Store → Type 0} (f t u r : ℕ) (k : Unit {0} → M B)
      → (OfOneOrg f t u r s0 → Yields env (λ s. s ≡ s0) (k tt) R)
      → Yields env
          (λ s. s ≡ s0)
          (check_user_belongs_to_team_org f r >>= λ a. check_user_belongs_to_team_org t r >>= λ b.
            check_user_belongs_to_team_org f u >>= λ c. require (a && b && c) not_in_team_org >>= k)
          R
  unfolding check_user_belongs_to_team_org
  of_one_org f t u r k y = Yields-check _ _ (Yields-read _) (λ a ea.
      Yields-check _ _ (Yields-read _) (λ b eb. Yields-check _ _ (Yields-read _) (λ c ec.
        Yields-check _ _ (Yields-require _ not_in_team_org) (λ _ passed.
          let (pa, pb, pc) = and_three a b c passed in
          y (sym ea.1 ∙ pa, sym eb.1 ∙ pb, sym ec.1 ∙ pc)))))

moved-StaysAdmin :
    (f t u t' : ℕ) (s : Store)
    → UniqueMembers s
    → Free f u s
    → t' ≢ t
    → StaysAdmin t' s (moved f t u s)
moved-StaysAdmin f t u t' s unique free other h =
    other-StaysAdmin t' t u member (without_member f u s) other
      (without_member-StaysAdmin t' f u s unique free h)

-- Where no statement is refused, the rows of team_members have their primary key and their users,
-- and the user's text is the id as the server prints it, a transfer that succeeds leaves an admin
-- in every team that had one, but for the team that the user is moved to.
pub transfer_team_member-StaysAdmin :
    (from_team to_team user req_user : String) (env : Env) (db : Db) {x : Unit {0}}
    → Faultless env
    → Idle db
    → UniqueMembers db.store
    → MembersKnown db.store db.store.team_members
    → ((u : ℕ) → env.parse_uuid user ≡ some u → env.uuid_string u ≡ user)
    → (transfer_team_member from_team to_team user req_user env db).0 ≡ ok x
    → (t : ℕ) → env.parse_uuid to_team ≢ some t
    → StaysAdmin t db.store (transfer_team_member from_team to_team user req_user env db).1.store
unfolding transfer_team_member
transfer_team_member-StaysAdmin from_team to_team user req_user env db calm idle unique known
      printed h =
    yielded {Q = λ _ s. (t : ℕ) → env.parse_uuid to_team ≢ some t → StaysAdmin t db.store s}
      (transfer_team_member from_team to_team user req_user) db
      (Yields-check _ _ (Yields-parse_uuid from_team) (λ f pf.
        Yields-check _ _ (Yields-parse_uuid to_team) (λ t pt.
          Yields-check _ _ (Yields-parse_uuid user) (λ u pu.
            Yields-check _ _ (Yields-parse_uuid req_user) (λ r pr.
              of_one_org env db.store f t u r _ (λ one.
                Yields-check _ _
                  (check_last_admin-Free env calm db.store true f u user known (printed u pu))
                  (λ _ free.
                    Yields-mono _
                      (λ _ s e t' other. subst (StaysAdmin t' db.store) (sym e) (
                        moved-StaysAdmin f t u t' db.store unique (free refl)
                          (λ same. other (pt ∙ ap some (sym same)))))
                      (move env db.store f t u))))))))
      idle refl h
