-- ===== src/Sql/Teams.antt =====
-- The queries on `teams` and `team_members` (server/internal/db/sqlc/team.sql.go), and on
-- `user_system_roles` (users.sql.go). Rows come in the order of the tables: the services test
-- membership in what they read.
use abhiyan.Prelude.{
  ℕ, String, Bool, ◌&&◌, not, Option, none, some, List, [], ◌∷◌, ◌++◌, ◌==◌, filter, any, count,
  join, update_where, if◌then◌else◌,
}
use abhiyan.Schema.Enums.{TeamRole, is_team_admin, team_role_of}
use abhiyan.Schema.{Team, TeamMember, User, UserSystemRole, Store}
use abhiyan.Db.{M, exec, select, returning, write_checked}
use abhiyan.Sql.Participants.{user_by_id}
use abhiyan.Sql.Orgs.{belongs}

abbrev pub belongs_to_team_org : ℕ → ℕ → Store → Bool
belongs_to_team_org team_id user_id s =
    any (λ t. (t.id == team_id) && belongs user_id t.org_id s) s.teams

unfoldable pub check_user_belongs_to_team_org : ℕ → ℕ → M Bool
check_user_belongs_to_team_org team_id user_id =
    select (λ env t. belongs_to_team_org team_id user_id)

unfoldable pub insert_team : ℕ → String → M ℕ
insert_team org_id name = returning (λ env t s. (
  env.gen_uuid t,
  record s { teams = s.teams ++ record { id = env.gen_uuid t; org_id = org_id; name = name } ∷ [] },
))

abbrev pub is_member_row : ℕ → ℕ → TeamMember → Bool
is_member_row team_id user_id m = (m.team_id == team_id) && (m.user_id == user_id)

abbrev pub is_admin_of : ℕ → TeamMember → Bool
is_admin_of team_id m = (m.team_id == team_id) && is_team_admin m.team_role

-- The teams of the organization in which the user is a TEAM_ADMIN
abbrev pub managed_teams : ℕ → ℕ → Store → List Team
managed_teams user_id org_id s =
    filter
      (λ t.
        (t.org_id == org_id)
        && any (λ m. is_admin_of t.id m && (m.user_id == user_id)) s.team_members)
      s.teams

unfoldable pub get_admin_managed_teams : ℕ → ℕ → M (List Team)
get_admin_managed_teams user_id org_id = select (λ env t. managed_teams user_id org_id)

abbrev pub admin_count : ℕ → Store → ℕ
admin_count team_id s = count (is_admin_of team_id) s.team_members

unfoldable pub get_team_admin_count : ℕ → M ℕ
get_team_admin_count team_id = select (λ env t. admin_count team_id)

-- GetTeamMembersDetailsRow
pub record TeamMemberRow : Type 0 where
  pub id : ℕ
  pub first_name : Option String
  pub last_name : Option String
  pub email_id : String
  pub tm_team_role : TeamRole

abbrev pub member_row : TeamMember → Option User → Option TeamMemberRow
member_row m none = none
member_row m (some u) = some (record {
  id = u.id;
  first_name = u.first_name;
  last_name = u.last_name;
  email_id = u.email_id;
  tm_team_role = m.team_role;
})

-- team_members JOIN users
abbrev pub members_of : ℕ → Store → List TeamMemberRow
members_of team_id s =
    join (λ m. member_row m (user_by_id m.user_id s))
      (filter (λ m. m.team_id == team_id) s.team_members)

unfoldable pub get_team_members_details : ℕ → M (List TeamMemberRow)
get_team_members_details team_id = select (λ env t. members_of team_id)

abbrev pub without_member : ℕ → ℕ → Store → Store
without_member team_id user_id s = record s {
  team_members = filter (λ m. not (is_member_row team_id user_id m)) s.team_members;
}

unfoldable pub remove_team_member : ℕ → ℕ → M (Unit {0})
remove_team_member team_id user_id = exec (λ env t. without_member team_id user_id)

abbrev pub with_role : TeamRole → TeamMember → TeamMember
with_role role m = record m { team_role = role }

-- ON CONFLICT (team_id, user_id) DO UPDATE
abbrev pub with_member : ℕ → ℕ → TeamRole → Store → Store
with_member team_id user_id role s = record s {
  team_members =
      if any (is_member_row team_id user_id) s.team_members
      then update_where (is_member_row team_id user_id) (with_role role) s.team_members
      else s.team_members ++ record { team_id = team_id; user_id = user_id; team_role = role } ∷ [];
}

abbrev pub put_member : ℕ → ℕ → Option TeamRole → Store → Option (Unit {0} × Store)
put_member team_id user_id none s = none
put_member team_id user_id (some role) s = some (tt, with_member team_id user_id role s)

-- The role is a text, cast without a check.
unfoldable pub upsert_team_member : ℕ → ℕ → String → M (Unit {0})
upsert_team_member team_id user_id role =
    write_checked (λ env t. put_member team_id user_id (team_role_of role))

abbrev pub roles_of : ℕ → ℕ → Store → List UserSystemRole
roles_of user_id org_id s =
    filter (λ r. (r.user_id == user_id) && (r.org_id == org_id)) s.user_system_roles

unfoldable pub get_user_system_roles : ℕ → ℕ → M (List UserSystemRole)
get_user_system_roles user_id org_id = select (λ env t. roles_of user_id org_id)
