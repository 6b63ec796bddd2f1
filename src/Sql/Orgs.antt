-- ===== src/Sql/Orgs.antt =====
-- The queries that tie a team, a user and a membership to an organization
-- (server/internal/db/sqlc/team.sql.go, users.sql.go).
use abhiyan.Prelude.{ℕ, String, Bool, ◌&&◌, Option, none, some, ◌==◌, find, any}
use abhiyan.Schema.Enums.{UserStatus, is_active}
use abhiyan.Schema.{OrgMembership, Store}
use abhiyan.Db.{M, select, select_one}
use abhiyan.Sql.Tasks.{team_by_id}
use abhiyan.Sql.Participants.{user_by_id}

unfoldable pub get_team_org_id : ℕ → M ℕ
get_team_org_id id =
    select_one (λ s. elim (team_by_id id s) [ none ↦ none | some team ↦ some team.org_id ])

-- A membership of this organization whose status is ACTIVE
abbrev pub belongs : ℕ → ℕ → Store → Bool
belongs user_id org_id s =
    any (λ m. (m.user_id == user_id) && (m.org_id == org_id) && is_active m.status)
      s.org_memberships

unfoldable pub is_user_in_org : ℕ → ℕ → M Bool
is_user_in_org user_id org_id = select (λ env t. belongs user_id org_id)

abbrev pub membership : ℕ → ℕ → Store → Option OrgMembership
membership user_id org_id s =
    find (λ m. (m.user_id == user_id) && (m.org_id == org_id)) s.org_memberships

abbrev pub status_of : Option OrgMembership → Option UserStatus
status_of none = none
status_of (some m) = some m.status

unfoldable pub get_membership_status : ℕ → ℕ → M UserStatus
get_membership_status user_id org_id = select_one (λ s. status_of (membership user_id org_id s))

-- GetUserNameByIDRow
unfoldable pub get_user_name_by_id : ℕ → M (Option String × Option String)
get_user_name_by_id id =
    select_one
      (λ s. elim (user_by_id id s) [ none ↦ none | some u ↦ some (u.first_name, u.last_name) ])
