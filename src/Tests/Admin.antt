-- ===== src/Tests/Admin.antt =====
-- The theorems on teams and their members, on the small organization of Tests/Data.antt.
use abhiyan.Sql.Teams.{
  get_admin_managed_teams, upsert_team_member, remove_team_member, get_user_system_roles,
  get_team_members_details, get_team_admin_count, check_user_belongs_to_team_org,
}
use abhiyan.Sql.Memberships.{
  insert_user_system_role, delete_user_system_roles, update_membership_status,
}
use abhiyan.Sql.Orgs.{get_team_org_id, is_user_in_org}
use abhiyan.Admin.Teams.{
  change_member, check_system_admin, fetch_team_members, check_manages, check_target,
  check_not_last, check_member_change, check_last_admin, transfer_team_member, manage_team_member,
}
use abhiyan.Admin.Members.{update_user_system_profile-ProfileSet, ProfileSet}
use abhiyan.Admin.Profiles.{update_user_system_profile}
use abhiyan.Admin.Transfers.{transfer_team_member-StaysAdmin}
use abhiyan.Admin.LastAdmin.{MembersKnown}
use abhiyan.Admin.Managed.{manage_team_member-StaysAdmin, manage_team_member-ManagedBy, ManagedBy}
use abhiyan.Admin.Counts.{StaysAdmin, UniqueMembers}
use abhiyan.Prelude.{ℕ, true, some, ◌≡◌, refl, subst, arith}
use abhiyan.Schema.Enums.{team_role_of, user_status_of, system_role_of}
use abhiyan.Db.{
  uuid_printer, exec, write_checked, select_one, select, attempt, statement, lift, raise, pure,
  parse_uuid, ◌>>=◌, ok,
}
use abhiyan.Tests.Data.{calm, server, texts, tables}

removes : (manage_team_member "team" "worker" "MEMBER" true "admin" calm server).0 ≡ ok tt
unfolding manage_team_member check_member_change check_target check_manages check_system_admin
    check_last_admin check_not_last fetch_team_members change_member get_team_org_id
    check_user_belongs_to_team_org get_user_system_roles get_admin_managed_teams
    get_team_admin_count get_team_members_details remove_team_member ◌>>=◌ parse_uuid pure raise
    lift statement attempt select select_one write_checked exec uuid_printer
removes = refl

manage_team_member-ManagedBy_example :
    ManagedBy "team" "worker" "MEMBER" true "admin" calm server.store
      (manage_team_member "team" "worker" "MEMBER" true "admin" calm server).1.store
manage_team_member-ManagedBy_example =
    manage_team_member-ManagedBy "team" "worker" "MEMBER" true "admin" calm server (refl, refl)
      removes

unique : UniqueMembers tables
unique t u = ground arith

known : MembersKnown tables tables.team_members
known = ((_, refl), ((_, refl), tt))

printed : (u : ℕ) → calm.parse_uuid "worker" ≡ some u → calm.uuid_string u ≡ "worker"
printed u h = let e : 8 ≡ u = cc in subst (λ i. texts i ≡ "worker") e refl

manage_team_member-StaysAdmin_example :
    StaysAdmin 10 server.store
      (manage_team_member "team" "worker" "MEMBER" true "admin" calm server).1.store
manage_team_member-StaysAdmin_example =
    manage_team_member-StaysAdmin "team" "worker" "MEMBER" true "admin" calm server (λ n. refl)
      (refl, refl) unique known printed removes 10

transfers : (transfer_team_member "team" "depot" "worker" "admin" calm server).0 ≡ ok tt
unfolding transfer_team_member check_last_admin check_not_last fetch_team_members
    check_user_belongs_to_team_org get_team_admin_count get_team_members_details remove_team_member
    upsert_team_member team_role_of ◌>>=◌ parse_uuid pure raise lift statement attempt select
    select_one write_checked exec uuid_printer
transfers = refl

transfer_team_member-StaysAdmin_example :
    StaysAdmin 10 server.store
      (transfer_team_member "team" "depot" "worker" "admin" calm server).1.store
transfer_team_member-StaysAdmin_example =
    transfer_team_member-StaysAdmin "team" "depot" "worker" "admin" calm server (λ n. refl)
      (refl, refl) unique known printed transfers 10 (λ e. absurd (ground arith))

profiles : (update_user_system_profile "worker" "ADMIN" "ACTIVE" "org" calm server).0 ≡ ok tt
unfolding update_user_system_profile is_user_in_org update_membership_status
    delete_user_system_roles insert_user_system_role system_role_of user_status_of ◌>>=◌ parse_uuid
    pure raise lift statement attempt select select_one write_checked exec uuid_printer
profiles = refl

update_user_system_profile-ProfileSet_example :
    ProfileSet "worker" "ADMIN" "ACTIVE" "org" calm server.store
      (update_user_system_profile "worker" "ADMIN" "ACTIVE" "org" calm server).1.store
update_user_system_profile-ProfileSet_example =
    update_user_system_profile-ProfileSet "worker" "ADMIN" "ACTIVE" "org" calm server (refl, refl)
      profiles
