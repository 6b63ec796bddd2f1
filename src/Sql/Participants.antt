-- ===== src/Sql/Participants.antt =====
-- The queries on `task_participants` of server/internal/db/sqlc/task.sql.go and scores.sql.go.
use abhiyan.Prelude.{
  ℕ, String, Bool, ◌&&◌, not, Option, none, some, List, [], ◌∷◌, ◌++◌, ◌==◌, find, filter, any,
  join, if◌then◌else◌,
}
use abhiyan.Schema.Enums.{ParticipantRole, assignee, subscriber, is_assignee}
use abhiyan.Schema.{User, Task, TaskParticipant, Store}
use abhiyan.Db.{M, exec, select}
use abhiyan.Sql.Tasks.{task_by_id, team_by_id}

abbrev pub user_by_id : ℕ → Store → Option User
user_by_id id s = find (λ u. u.id == id) s.users

-- GetTaskParticipantsRow
pub record ParticipantRow : Type 0 where
  pub tp_role : ParticipantRole
  pub id : ℕ
  pub first_name : Option String
  pub last_name : Option String

abbrev pub of_task : ℕ → List TaskParticipant → List TaskParticipant
of_task id = filter (λ p. p.task_id == id)

abbrev pub participant_row : Store → TaskParticipant → Option ParticipantRow
participant_row s p = elim (user_by_id p.user_id s) [
  | none ↦ none
  | some u ↦
      some
        (record { tp_role = p.role; id = u.id; first_name = u.first_name; last_name = u.last_name })
]

-- task_participants JOIN users
abbrev pub participants_of : ℕ → Store → List ParticipantRow
participants_of id s = join (participant_row s) (of_task id s.task_participants)

unfoldable pub get_task_participants : ℕ → M (List ParticipantRow)
get_task_participants id = select (λ env t. participants_of id)

abbrev pub same_role : ParticipantRole → ParticipantRole → Bool
same_role assignee r = is_assignee r
same_role subscriber r = not (is_assignee r)

-- ON CONFLICT (task_id, user_id, role) DO NOTHING
abbrev pub with_participant : ℕ → ℕ → ParticipantRole → List TaskParticipant → List TaskParticipant
with_participant task_id user_id role ps =
    if any (λ p. (p.task_id == task_id) && (p.user_id == user_id) && same_role role p.role) ps
    then ps
    else ps ++ record { task_id = task_id; user_id = user_id; role = role } ∷ []

unfoldable pub add_task_participant : ℕ → ℕ → ParticipantRole → M (Unit {0})
add_task_participant task_id user_id role = exec (λ env t s. record s {
  task_participants = with_participant task_id user_id role s.task_participants;
})

unfoldable pub delete_task_participants : ℕ → M (Unit {0})
delete_task_participants id = exec (λ env t s. record s {
  task_participants = filter (λ p. not (p.task_id == id)) s.task_participants;
})

abbrev pub assignees_of : ℕ → Store → List TaskParticipant
assignees_of id s = filter (λ p. (p.task_id == id) && is_assignee p.role) s.task_participants

unfoldable pub is_task_assignee : ℕ → ℕ → M Bool
is_task_assignee task_id user_id = select (λ env t s.
    any (λ p. (p.task_id == task_id) && (p.user_id == user_id) && is_assignee p.role)
      s.task_participants)

abbrev pub phone_row : Store → TaskParticipant → Option (Option String)
phone_row s p = elim (user_by_id p.user_id s) [ none ↦ none | some u ↦ some u.phone_number ]

unfoldable pub get_task_assignee_phones : ℕ → M (List (Option String))
get_task_assignee_phones id = select (λ env t s. join (phone_row s) (assignees_of id s))

-- GetTaskAssigneesWithContextRow
pub record AssigneeRow : Type 0 where
  pub user_id : ℕ
  pub team_id : ℕ
  pub org_id : ℕ

abbrev pub assignee_row : Option Task → Store → TaskParticipant → Option AssigneeRow
assignee_row none s p = none
assignee_row (some task) s p = elim (team_by_id task.team_id s) [
  | none ↦ none
  | some team ↦ some (record { user_id = p.user_id; team_id = task.team_id; org_id = team.org_id })
]

-- task_participants JOIN tasks JOIN teams
abbrev pub assignee_rows : ℕ → Store → List AssigneeRow
assignee_rows id s = join (assignee_row (task_by_id id s) s) (assignees_of id s)

unfoldable pub get_task_assignees_with_context : ℕ → M (List AssigneeRow)
get_task_assignees_with_context id = select (λ env t. assignee_rows id)
