-- ===== src/Admin/Profiles.antt =====
-- UpdateUserSystemProfile and SetAttendanceEnabled of server/internal/services/admin.go. The three
-- statements of the first run in no transaction.
use abhiyan.Prelude.{String, Bool, not, str_eq}
use abhiyan.Db.{M, ◌>>=◌, ◌>>◌, parse_uuid, invalid_status, not_in_org}
use abhiyan.Sql.Orgs.{is_user_in_org}
use abhiyan.Sql.Memberships.{
  update_membership_status, delete_user_system_roles, insert_user_system_role,
  set_org_attendance_enabled,
}
use abhiyan.Tasks.Guards.{require}

unfoldable pub update_user_system_profile : String → String → String → String → M (Unit {0})
update_user_system_profile user role status caller = do
  require (not (str_eq status "INVITED")) invalid_status
  user_id ← parse_uuid user
  org_id ← parse_uuid caller
  may ← is_user_in_org user_id org_id
  require may not_in_org
  update_membership_status status user_id org_id
  delete_user_system_roles user_id org_id
  insert_user_system_role user_id org_id role

unfoldable pub set_attendance_enabled : String → Bool → M (Unit {0})
set_attendance_enabled org enabled = do
  org_id ← parse_uuid org
  set_org_attendance_enabled org_id enabled
