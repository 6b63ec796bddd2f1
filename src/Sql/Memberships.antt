-- ===== src/Sql/Memberships.antt =====
-- The queries that change memberships, roles and organizations (server/internal/db/sqlc/users.sql.go,
-- organisation.sql.go).
use abhiyan.Prelude.{
  false, true, ℕ, String, Bool, ◌&&◌, not, Option, none, some, [], ◌∷◌, ◌++◌, ◌==◌, filter, find,
  any, update_where, if◌then◌else◌,
}
use abhiyan.Schema.Enums.{
  UserStatus, user_status_of, SystemRole, system_role_of, super_admin, admin, employee,
}
use abhiyan.Schema.{OrgMembership, UserSystemRole, Organization, Store}
use abhiyan.Db.{M, exec, select_one, write_checked}

abbrev pub is_membership : ℕ → ℕ → OrgMembership → Bool
is_membership user_id org_id m = (m.user_id == user_id) && (m.org_id == org_id)

abbrev pub with_member_status : UserStatus → OrgMembership → OrgMembership
with_member_status st m = record m { status = st }

abbrev pub status_set : ℕ → ℕ → UserStatus → Store → Store
status_set user_id org_id st s = record s {
  org_memberships =
      update_where (is_membership user_id org_id) (with_member_status st) s.org_memberships;
}

abbrev pub put_status : ℕ → ℕ → Option UserStatus → Store → Option (Unit {0} × Store)
put_status user_id org_id none s = none
put_status user_id org_id (some st) s = some (tt, status_set user_id org_id st s)

unfoldable pub update_membership_status : String → ℕ → ℕ → M (Unit {0})
update_membership_status status user_id org_id =
    write_checked (λ env t. put_status user_id org_id (user_status_of status))

abbrev pub is_role_row : ℕ → ℕ → UserSystemRole → Bool
is_role_row user_id org_id r = (r.user_id == user_id) && (r.org_id == org_id)

abbrev pub roles_gone : ℕ → ℕ → Store → Store
roles_gone user_id org_id s = record s {
  user_system_roles = filter (λ r. not (is_role_row user_id org_id r)) s.user_system_roles;
}

unfoldable pub delete_user_system_roles : ℕ → ℕ → M (Unit {0})
delete_user_system_roles user_id org_id = exec (λ env t. roles_gone user_id org_id)

abbrev pub same_system_role : SystemRole → SystemRole → Bool
same_system_role super_admin super_admin = true
same_system_role admin admin = true
same_system_role employee employee = true
same_system_role _ _ = false

abbrev pub has_role : ℕ → ℕ → SystemRole → Store → Bool
has_role user_id org_id role s =
    any (λ r. is_role_row user_id org_id r && same_system_role role r.role) s.user_system_roles

abbrev pub role_added : ℕ → ℕ → SystemRole → Store → Store
role_added user_id org_id role s = record s {
  user_system_roles =
      s.user_system_roles ++ record { user_id = user_id; org_id = org_id; role = role } ∷ [];
}

-- The primary key is the user, the organization and the role.
abbrev pub put_role : ℕ → ℕ → Option SystemRole → Store → Option (Unit {0} × Store)
put_role user_id org_id none s = none
put_role user_id org_id (some role) s =
    if has_role user_id org_id role s then none else some (tt, role_added user_id org_id role s)

unfoldable pub insert_user_system_role : ℕ → ℕ → String → M (Unit {0})
insert_user_system_role user_id org_id role =
    write_checked (λ env t. put_role user_id org_id (system_role_of role))

abbrev pub with_attendance : Bool → Organization → Organization
with_attendance enabled o = record o { attendance_enabled = enabled }

unfoldable pub set_org_attendance_enabled : ℕ → Bool → M (Unit {0})
set_org_attendance_enabled org_id enabled = exec (λ env t s. record s {
  organizations = update_where (λ o. o.id == org_id) (with_attendance enabled) s.organizations;
})

abbrev pub org_by_id : ℕ → Store → Option Organization
org_by_id id s = find (λ o. o.id == id) s.organizations

-- GetOrgInfo
unfoldable pub get_org_info : ℕ → M Organization
get_org_info org_id = select_one (org_by_id org_id)
