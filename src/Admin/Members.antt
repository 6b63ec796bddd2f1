-- ===== src/Admin/Members.antt =====
-- What changing a member's profile has checked, and what it leaves of the memberships and the roles.
use abhiyan.Db.Yields.{
  Yields-exec, Yields-write_checked, Yields-bind, Yields-read, Yields-parse_uuid, Yields-require,
  Yields-check, yielded, Idle,
}
use abhiyan.Prelude.{
  ℕ, String, Bool, true, false, not, Option, none, some, ◌≡◌, refl, sym, ap, ◌∙◌, str_eq,
  Bool-cases, inl, inr, arith,
}
use abhiyan.Schema.Enums.{UserStatus, user_status_of, SystemRole, system_role_of}
use abhiyan.Schema.{Store}
use abhiyan.Db.{Env, Db, ok, invalid_status, not_in_org}
use abhiyan.Sql.Orgs.{belongs, is_user_in_org}
use abhiyan.Sql.Memberships.{
  has_role, status_set, put_status, roles_gone, role_added, put_role, update_membership_status,
  delete_user_system_roles, insert_user_system_role,
}
use abhiyan.Admin.Profiles.{update_user_system_profile}

abbrev pub ProfileSet : String → String → String → String → Env → Store → Store → Type 0
ProfileSet user role status caller env before after =
    (u : ℕ) × (o : ℕ) × (st : UserStatus) × (r : SystemRole) × (env.parse_uuid user ≡ some u)
    × (env.parse_uuid caller ≡ some o)
    × (user_status_of status ≡ some st)
    × (system_role_of role ≡ some r)
    × (str_eq status "INVITED" ≡ false)
    × (belongs u o before ≡ true)
    × (after ≡ role_added u o r (roles_gone u o (status_set u o st before)))

not-true : {b : Bool} → not b ≡ true → b ≡ false
not-true h = ground arith

status_put :
    (u o : ℕ) (st : Option UserStatus) (s0 s s' : Store) (x : Unit {0})
    → s ≡ s0
    → put_status u o st s ≡ some (x, s')
    → (v : UserStatus) × (st ≡ some v) × (s' ≡ status_set u o v s0)
status_put u o none s0 s s' x same h = absurd cc
status_put u o (some v) s0 s s' x same h =
    let e : status_set u o v s ≡ s' = cc in (v, refl, sym e ∙ ap (status_set u o v) same)

role_put :
    (u o : ℕ) (r : Option SystemRole) (s s' : Store) (x : Unit {0})
    → put_role u o r s ≡ some (x, s')
    → (v : SystemRole) × (r ≡ some v) × (s' ≡ role_added u o v s)
role_put u o none s s' x h = absurd cc
role_put u o (some v) s s' x h = elim (Bool-cases (has_role u o v s)) [
  | inl had ↦ absurd (refused (rw had at h))
  | inr free ↦
      let e : ◌≡◌ {A = Option (Unit {0} × Store)} (some (tt, role_added u o v s)) (some (x, s')) =
        rw free at h in
      let e' : role_added u o v s ≡ s' = cc in (v, refl, sym e')
]
  where
    refused : {A : Type 0} {a : A} → none ≡ some a → ⊥
    refused h = cc

-- A change of a profile that succeeds is of a user who was an ACTIVE member of the caller's
-- organization, to a status and a role that are labels of the database, the status not INVITED. It
-- sets the status of that membership, and leaves the role as the only one that the user has in that
-- organization; memberships and roles in other organizations, and all else, are as they were.
pub update_user_system_profile-ProfileSet :
    (user role status caller : String) (env : Env) (db : Db) {x : Unit {0}}
    → Idle db
    → (update_user_system_profile user role status caller env db).0 ≡ ok x
    → ProfileSet user role status caller env db.store
        (update_user_system_profile user role status caller env db).1.store
unfolding update_user_system_profile is_user_in_org update_membership_status
    delete_user_system_roles insert_user_system_role
update_user_system_profile-ProfileSet user role status caller env db idle h =
    yielded {Q = λ _ s. ProfileSet user role status caller env db.store s}
      (update_user_system_profile user role status caller) db
      (Yields-check _ _ (Yields-require (not (str_eq status "INVITED")) invalid_status) (λ _ fresh.
        Yields-check _ _ (Yields-parse_uuid user) (λ u pu.
          Yields-check _ _ (Yields-parse_uuid caller) (λ o po.
            Yields-check _ _ (Yields-read _) (λ may e.
              Yields-check _ _ (Yields-require may not_in_org) (λ _ passed.
                Yields-bind _ _
                  (Yields-write_checked
                    {Q = λ _ s.
                      (v : UserStatus) × (user_status_of status ≡ some v)
                      × (s ≡ status_set u o v db.store)}
                    _
                    (λ i s same x s' put.
                      status_put u o (user_status_of status) db.store s s' x same put))
                  (λ _.
                    Yields-bind _ _
                      (Yields-exec
                        {Q = λ s.
                          (v : UserStatus) × (user_status_of status ≡ some v)
                          × (s ≡ roles_gone u o (status_set u o v db.store))}
                        _
                        (λ i s known.
                          let (v, label, same) = known in (v, label, ap (roles_gone u o) same)))
                      (λ _. Yields-write_checked _ (λ i s known x s' put.
                        let (v, label, same) = known in
                        let (r, named, added) = role_put u o (system_role_of role) s s' x put in
                        (
                          u,
                          o,
                          v,
                          r,
                          pu,
                          po,
                          label,
                          named,
                          not-true fresh,
                          sym e.1 ∙ passed,
                          added ∙ ap (role_added u o r) same,
                        ))))))))))
      idle refl h
