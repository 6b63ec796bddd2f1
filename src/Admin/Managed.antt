-- ===== src/Admin/Managed.antt =====
-- Who may change the members of a team, and what a change that succeeds leaves.
use abhiyan.Db.Rules.{quiet_rules}
use abhiyan.Db.Yields.{
  Yields-uuid_printer, Yields-attempt, Yields-write_checked, Yields-bind, Yields-exec,
  Yields-parse_uuid, yielded, Idle, Yields-mono, Yields-require, Yields-read, Yields-read_one,
  Yields-pure, Yields-check, Yields,
}
use abhiyan.Sql.Orgs.{get_team_org_id}
use abhiyan.Prelude.{
  leb, ℕ, String, Bool, true, false, ◌&&◌, ◌||◌, not, Option, none, some, ◌==◌, ◌≡◌, ◌⊎◌, refl, sym,
  subst, ap, ◌∙◌, any, str_eq, inl, inr, arith,
}
use abhiyan.Schema.Enums.{
  TeamRole, team_admin, member, is_super_admin, is_system_admin, team_role_of,
}
use abhiyan.Schema.{Store}
use abhiyan.Db.{last_admin, Env, Db, ok, not_in_team_org, not_manager, not_system_admin}
use abhiyan.Db.Smooth.{Faultless}
use abhiyan.Tasks.Created.{org_of_team}
use abhiyan.Sql.Teams.{
  get_team_admin_count, get_team_members_details, upsert_team_member, remove_team_member,
  get_admin_managed_teams, get_user_system_roles, check_user_belongs_to_team_org,
  belongs_to_team_org, roles_of, managed_teams, without_member, with_member, put_member,
}
use abhiyan.Admin.Teams.{
  fetch_team_members, check_not_last, check_last_admin, check_target, check_manages,
  check_system_admin, check_member_change, change_member, manage_team_member,
}
use abhiyan.Admin.Counts.{
  Free, UniqueMembers, StaysAdmin, without_member-StaysAdmin, with_member-StaysAdmin,
  promoted-StaysAdmin,
}
use abhiyan.Admin.LastAdmin.{MembersKnown, check_last_admin-Free}

-- The one who asks is a SUPER_ADMIN of the organization, or a TEAM_ADMIN of the team.
abbrev pub Manages : ℕ → ℕ → ℕ → Store → Type 0
Manages t o requester s =
    (any (λ r. is_super_admin r.role) (roles_of requester o s) ≡ true)
    ⊎ (any (λ x. x.id == t) (managed_teams requester o s) ≡ true)

-- All that is asked of the one who asks and of the user
abbrev pub Authorized : ℕ → ℕ → String → Bool → ℕ → Store → Type 0
Authorized t u role is_removal requester s =
    (o : ℕ) × (org_of_team t s ≡ some o)
    × (belongs_to_team_org t requester s ≡ true)
    × Manages t o requester s
    × (is_removal ≡ false → belongs_to_team_org t u s ≡ true)
    × ((not is_removal && str_eq role "TEAM_ADMIN") ≡ true
        → any (λ r. is_system_admin r.role) (roles_of u o s) ≡ true)

module _ (env : Env) (s0 : Store) where
  target :
      (b : Bool) (t u : ℕ)
      → Yields env
          (λ s. s ≡ s0)
          (check_target b t u)
          (λ _ s. (s ≡ s0) × (b ≡ false → belongs_to_team_org t u s0 ≡ true))
  unfolding check_target check_user_belongs_to_team_org
  target true t u = Yields-pure tt (λ s h. (h, λ e. absurd cc))
  target false t u = Yields-check _ _ (Yields-read _) (λ may e.
      Yields-mono _ (λ _ s h. (h.0, λ _. sym e.1 ∙ h.1)) (Yields-require may not_in_team_org))

  manages :
      (b : Bool) (t o r : ℕ)
      → any (λ x. is_super_admin x.role) (roles_of r o s0) ≡ b
      → Yields env (λ s. s ≡ s0) (check_manages b t o r) (λ _ s. (s ≡ s0) × Manages t o r s0)
  unfolding check_manages get_admin_managed_teams
  manages true t o r super = Yields-pure tt (λ s h. (h, inl super))
  manages false t o r super = Yields-check _ _ (Yields-read _) (λ teams e.
      Yields-mono _ (λ _ s h. (h.0, inr (subst (λ ts. any (λ x. x.id == t) ts ≡ true) e.1 h.1)))
        (Yields-require _ not_manager))

  system_admin :
      (b : Bool) (u o : ℕ)
      → Yields env
          (λ s. s ≡ s0)
          (check_system_admin b u o)
          (λ _ s.
            (s ≡ s0) × (b ≡ true → any (λ r. is_system_admin r.role) (roles_of u o s0) ≡ true))
  unfolding check_system_admin get_user_system_roles
  system_admin false u o = Yields-pure tt (λ s h. (h, λ e. absurd cc))
  system_admin true u o = Yields-check _ _ (Yields-read _) (λ roles e.
      Yields-mono _
        (λ _ s h. (h.0, λ _. subst (λ rs. any (λ r. is_system_admin r.role) rs ≡ true) e.1 h.1))
        (Yields-require _ not_system_admin))

  authorized :
      (t u : ℕ) (role : String) (b : Bool) (r : ℕ)
      → Yields env
          (λ s. s ≡ s0)
          (check_member_change t u role b r)
          (λ _ s. (s ≡ s0) × Authorized t u role b r s0)
  unfolding check_member_change get_team_org_id check_user_belongs_to_team_org get_user_system_roles
  authorized t u role b r = Yields-check _ _ (Yields-read_one _) (λ o own.
      Yields-check _ _ (Yields-read _) (λ may e.
        Yields-check _ _ (Yields-require may not_in_team_org) (λ _ passed.
          Yields-check _ _ (target b t u) (λ _ aimed. Yields-check _ _ (Yields-read _) (λ roles e'.
            Yields-check _ _
              (manages (any (λ x. is_super_admin x.role) roles) t o r
                (ap (λ rs. any (λ x. is_super_admin x.role) rs) (sym e'.1)))
              (λ _ managed.
                Yields-mono _ (λ _ s h. (h.0, (o, own, sym e.1 ∙ passed, managed, aimed, h.1)))
                  (system_admin (not b && str_eq role "TEAM_ADMIN") u o)))))))

-- The rows of team_members are as a change leaves them, and the other tables are as they were.
abbrev pub Changed : Bool → ℕ → ℕ → String → Store → Store → Type 0
Changed true t u role s0 s = s ≡ without_member t u s0
Changed false t u role s0 s =
    (r : TeamRole) × (team_role_of role ≡ some r) × (s ≡ with_member t u r s0)

put_changed :
    (t u : ℕ) (o : Option TeamRole) (s0 s s' : Store) (x : Unit {0})
    → s ≡ s0
    → put_member t u o s ≡ some (x, s')
    → (r : TeamRole) × (o ≡ some r) × (s' ≡ with_member t u r s0)
put_changed t u none s0 s s' x same h = absurd cc
put_changed t u (some r) s0 s s' x same h =
    let e : with_member t u r s ≡ s' = cc in (r, refl, sym e ∙ ap (with_member t u r) same)

pub change_member-Changed :
    (env : Env) (s0 : Store) (b : Bool) (t u : ℕ) (role : String)
    → Yields env (λ s. s ≡ s0) (change_member b t u role) (λ _ s. Changed b t u role s0 s)
unfolding change_member remove_team_member upsert_team_member
change_member-Changed env s0 true t u role = Yields-exec _ (λ i s h. ap (without_member t u) h)
change_member-Changed env s0 false t u role =
    Yields-write_checked _ (λ i s h x s' e. put_changed t u (team_role_of role) s0 s s' x h e)

abbrev pub ManagedBy : String → String → String → Bool → String → Env → Store → Store → Type 0
ManagedBy team user role is_removal req_user env before after =
    (t : ℕ) × (u : ℕ) × (r : ℕ) × (env.parse_uuid team ≡ some t)
    × (env.parse_uuid user ≡ some u)
    × (env.parse_uuid req_user ≡ some r)
    × Authorized t u role is_removal r before
    × Changed is_removal t u role before after

-- Whether the check on the last admin was made or not, it changes nothing.
pub last_any :
    (env : Env) (s0 : Store) (b : Bool) (t : ℕ) (user : String)
    → Yields env (λ s. s ≡ s0) (check_last_admin b t user) (λ _ s. s ≡ s0)
unfolding check_last_admin check_not_last fetch_team_members get_team_members_details
    get_team_admin_count
last_any env s0 false t user = Yields-pure tt (λ s h. h)
last_any env s0 true t user = Yields-check _ _ (Yields-read _) (λ n e. not_last (leb n 1))
  where
    not_last : (b : Bool) → Yields env (λ s. s ≡ s0) (check_not_last b t user) (λ _ s. s ≡ s0)
    not_last false = Yields-pure tt (λ s h. h)
    not_last true =
        Yields-bind _ _
          (Yields-attempt _ (search quiet_rules depth 10) (
            Yields-check {R = λ _ s. s ≡ s0} _ _ (Yields-read _) (λ rows e.
              Yields-check _ _ Yields-uuid_printer (λ print e. Yields-pure _ (λ s h. h)))))
          (λ o. Yields-mono _ (λ _ s h. h.0) (Yields-require _ last_admin))

-- A change of a team's members that succeeds was asked for by an active member of the team's
-- organization who is a SUPER_ADMIN of it or a TEAM_ADMIN of the team; unless the user is removed,
-- the user is an active member of that organization too, and to become TEAM_ADMIN an ADMIN or a
-- SUPER_ADMIN of it. It removes the user's row of the team, or leaves it with the role asked for,
-- which is a label of the database, and changes nothing else.
pub manage_team_member-ManagedBy :
    (team user role : String) (is_removal : Bool) (req_user : String) (env : Env) (db : Db)
    {x : Unit {0}}
    → Idle db
    → (manage_team_member team user role is_removal req_user env db).0 ≡ ok x
    → ManagedBy team user role is_removal req_user env db.store
        (manage_team_member team user role is_removal req_user env db).1.store
unfolding manage_team_member
manage_team_member-ManagedBy team user role is_removal req_user env db idle h =
    yielded {Q = λ _ s. ManagedBy team user role is_removal req_user env db.store s}
      (manage_team_member team user role is_removal req_user) db
      (Yields-check _ _ (Yields-parse_uuid team) (λ t pt.
        Yields-check _ _ (Yields-parse_uuid user) (λ u pu.
          Yields-check _ _ (Yields-parse_uuid req_user) (λ r pr.
            Yields-check _ _ (authorized env db.store t u role is_removal r) (λ _ may.
              Yields-bind _ _ (last_any env db.store _ t user) (λ _.
                Yields-mono _ (λ _ s e. (t, u, r, pt, pu, pr, may, e))
                  (change_member-Changed env db.store is_removal t u role)))))))
      idle refl h

member_text : (role : String) → team_role_of role ≡ some member → str_eq role "MEMBER" ≡ true
unfolding team_role_of
member_text role h = ground arith

Changed-StaysAdmin :
    (b : Bool) (t u : ℕ) (role : String) (s0 s : Store)
    → UniqueMembers s0
    → ((b || str_eq role "MEMBER") ≡ true → Free t u s0)
    → Changed b t u role s0 s
    → (t' : ℕ) → StaysAdmin t' s0 s
Changed-StaysAdmin true t u role s0 s unique free e t' =
    subst (StaysAdmin t' s0) (sym e) (without_member-StaysAdmin t' t u s0 unique (free refl))
Changed-StaysAdmin false t u role s0 s unique free (team_admin, r, e) t' =
    subst (StaysAdmin t' s0) (sym e) (promoted-StaysAdmin t' t u s0)
Changed-StaysAdmin false t u role s0 s unique free (member, r, e) t' =
    subst (StaysAdmin t' s0) (sym e)
      (with_member-StaysAdmin t' t u member s0 unique (free (member_text role r)))

-- Where no statement is refused, the rows of team_members have their primary key and their users,
-- and the user's text is the id as the server prints it, a change of a team's members that succeeds
-- leaves an admin in every team that had one: the last admin is neither removed nor demoted.
pub manage_team_member-StaysAdmin :
    (team user role : String) (is_removal : Bool) (req_user : String) (env : Env) (db : Db)
    {x : Unit {0}}
    → Faultless env
    → Idle db
    → UniqueMembers db.store
    → MembersKnown db.store db.store.team_members
    → ((u : ℕ) → env.parse_uuid user ≡ some u → env.uuid_string u ≡ user)
    → (manage_team_member team user role is_removal req_user env db).0 ≡ ok x
    → (t : ℕ)
    → StaysAdmin t db.store (manage_team_member team user role is_removal req_user env db).1.store
unfolding manage_team_member
manage_team_member-StaysAdmin team user role is_removal req_user env db calm idle unique known
      printed h =
    yielded {Q = λ _ s. (t : ℕ) → StaysAdmin t db.store s}
      (manage_team_member team user role is_removal req_user) db
      (Yields-check _ _ (Yields-parse_uuid team) (λ t pt.
        Yields-check _ _ (Yields-parse_uuid user) (λ u pu.
          Yields-check _ _ (Yields-parse_uuid req_user) (λ r pr.
            Yields-check _ _ (authorized env db.store t u role is_removal r) (λ _ may.
              Yields-check _ _
                (check_last_admin-Free env calm db.store (is_removal || str_eq role "MEMBER") t u
                  user known (printed u pu))
                (λ _ free.
                  Yields-mono _
                    (λ _ s e. Changed-StaysAdmin is_removal t u role db.store s unique free e)
                    (change_member-Changed env db.store is_removal t u role)))))))
      idle refl h
