-- ===== src/Admin/Teams.antt =====
-- CreateTeam, ManageTeamMember and TransferTeamMember of server/internal/services/admin.go.
use abhiyan.Prelude.{
  ℕ, String, Bool, true, false, ◌&&◌, ◌||◌, not, List, [], ◌==◌, leb, any, map, str_eq,
  if◌then◌else◌,
}
use abhiyan.Schema.Enums.{TeamRole, team_admin, member, is_super_admin, is_system_admin}
use abhiyan.Text.{full_name, is_blank}
use abhiyan.Db.{
  M, pure, ◌>>=◌, ◌>>◌, parse_uuid, attempt, value_or, transaction, uuid_printer, not_in_team_org,
  not_manager, not_system_admin, last_admin,
}
use abhiyan.Sql.Orgs.{get_team_org_id}
use abhiyan.Sql.Teams.{
  TeamMemberRow, check_user_belongs_to_team_org, insert_team, get_admin_managed_teams,
  get_team_admin_count, get_team_members_details, remove_team_member, upsert_team_member,
  get_user_system_roles,
}
use abhiyan.Tasks.Guards.{require}

unfoldable pub create_team_body : String → String → String → M ℕ
create_team_body org name creator = do
  org_id ← parse_uuid org
  creator_id ← parse_uuid creator
  team_id ← insert_team org_id name
  upsert_team_member team_id creator_id "TEAM_ADMIN"
  pure team_id

unfoldable pub create_team : String → String → String → M ℕ
create_team org name creator = transaction (create_team_body org name creator)

-- schemas.TeamMemberResponse
pub record TeamMemberResponse : Type 0 where
  pub id : String
  pub full_name : String
  pub email_id : String
  pub team_role : String

abbrev pub role_text : TeamRole → String
role_text team_admin = "TEAM_ADMIN"
role_text member = "MEMBER"

abbrev pub name_or_pending : String → String
name_or_pending name = if is_blank name then "Pending Acceptance" else name

abbrev pub member_response : (ℕ → String) → TeamMemberRow → TeamMemberResponse
member_response print m = record {
  id = print m.id;
  full_name = name_or_pending (full_name m.first_name m.last_name);
  email_id = m.email_id;
  team_role = role_text m.tm_team_role;
}

-- The loop over the rows of a query whose error, if it is dropped, leaves none
unfoldable pub fetch_team_members : ℕ → M (List TeamMemberResponse)
fetch_team_members team_id = do
  rows ← get_team_members_details team_id
  print ← uuid_printer
  pure (map (member_response print) rows)

-- Neither the one who asks nor, unless it is removed, the user may be of another organization.
unfoldable pub check_target : Bool → ℕ → ℕ → M (Unit {0})
check_target true team_id user_id = pure tt
check_target false team_id user_id = do
  may ← check_user_belongs_to_team_org team_id user_id
  require may not_in_team_org

unfoldable pub check_manages : Bool → ℕ → ℕ → ℕ → M (Unit {0})
check_manages true team_id org_id requester = pure tt
check_manages false team_id org_id requester = do
  teams ← get_admin_managed_teams requester org_id
  require (any (λ t. t.id == team_id) teams) not_manager

unfoldable pub check_system_admin : Bool → ℕ → ℕ → M (Unit {0})
check_system_admin false user_id org_id = pure tt
check_system_admin true user_id org_id = do
  roles ← get_user_system_roles user_id org_id
  require (any (λ r. is_system_admin r.role) roles) not_system_admin

abbrev pub is_that_admin : String → TeamMemberResponse → Bool
is_that_admin user m = str_eq m.id user && str_eq m.team_role "TEAM_ADMIN"

-- The user's text is compared with the members' ids as they are printed.
unfoldable pub check_not_last : Bool → ℕ → String → M (Unit {0})
check_not_last false team_id user = pure tt
check_not_last true team_id user = do
  members ← attempt (fetch_team_members team_id)
  require (not (any (is_that_admin user) (value_or [] members))) last_admin

unfoldable pub check_last_admin : Bool → ℕ → String → M (Unit {0})
check_last_admin false team_id user = pure tt
check_last_admin true team_id user = do
  admins ← get_team_admin_count team_id
  check_not_last (leb admins 1) team_id user

unfoldable pub change_member : Bool → ℕ → ℕ → String → M (Unit {0})
change_member true team_id user_id role = remove_team_member team_id user_id
change_member false team_id user_id role = upsert_team_member team_id user_id role

-- The checks on the one who asks and on the user, before the last admin is looked for
unfoldable pub check_member_change : ℕ → ℕ → String → Bool → ℕ → M (Unit {0})
check_member_change team_id user_id role is_removal requester = do
  org_id ← get_team_org_id team_id
  may ← check_user_belongs_to_team_org team_id requester
  require may not_in_team_org
  check_target is_removal team_id user_id
  roles ← get_user_system_roles requester org_id
  check_manages (any (λ r. is_super_admin r.role) roles) team_id org_id requester
  check_system_admin (not is_removal && str_eq role "TEAM_ADMIN") user_id org_id

unfoldable pub manage_team_member : String → String → String → Bool → String → M (Unit {0})
manage_team_member team user role is_removal req_user = do
  team_id ← parse_uuid team
  user_id ← parse_uuid user
  requester ← parse_uuid req_user
  check_member_change team_id user_id role is_removal requester
  check_last_admin (is_removal || str_eq role "MEMBER") team_id user
  change_member is_removal team_id user_id role

unfoldable pub transfer_team_member : String → String → String → String → M (Unit {0})
transfer_team_member from_team to_team user req_user = do
  from_id ← parse_uuid from_team
  to_id ← parse_uuid to_team
  user_id ← parse_uuid user
  requester ← parse_uuid req_user
  req_from ← check_user_belongs_to_team_org from_id requester
  req_to ← check_user_belongs_to_team_org to_id requester
  target_from ← check_user_belongs_to_team_org from_id user_id
  require (req_from && req_to && target_from) not_in_team_org
  check_last_admin true from_id user
  remove_team_member from_id user_id
  upsert_team_member to_id user_id "MEMBER"
