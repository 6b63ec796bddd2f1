-- ===== src/Sql/Tasks.antt =====
-- The queries on `tasks` and `task_updates` of server/internal/db/sqlc/task.sql.go.
use abhiyan.Prelude.{ℕ, String, Option, none, some, [], ◌∷◌, ◌++◌, ◌==◌, find, update_where}
use abhiyan.Schema.Enums.{
  TaskStatus, opened, closed, TaskFulfillmentStatus, TaskReviewStatus, unsubmitted, approved,
  rejected, task_status_of,
}
use abhiyan.Schema.{Task, Team, Store}
use abhiyan.Db.{M, exec, select_one, returning, write_checked}

abbrev pub on_task : ℕ → (Task → Task) → Store → Store
on_task id f s = record s { tasks = update_where (λ r. r.id == id) f s.tasks }

abbrev pub task_by_id : ℕ → Store → Option Task
task_by_id id s = find (λ r. r.id == id) s.tasks

abbrev pub team_by_id : ℕ → Store → Option Team
team_by_id id s = find (λ r. r.id == id) s.teams

-- The SET clauses.
abbrev pub submitted_row : Task → Task
submitted_row r = record r {
  fulfillment_status = some TaskFulfillmentStatus.completed;
  review_status = TaskReviewStatus.pending;
}

abbrev pub approved_row : Task → Task
approved_row r = record r { status = some closed; review_status = approved }

abbrev pub rejected_row : Option ℕ → Task → Task
rejected_row due r = record r {
  status = some opened;
  fulfillment_status = some TaskFulfillmentStatus.pending;
  review_status = rejected;
  due_date = due;
}

abbrev pub reopened_row : Option ℕ → Task → Task
reopened_row due r = record r {
  status = some opened;
  fulfillment_status = some TaskFulfillmentStatus.pending;
  review_status = unsubmitted;
  due_date = due;
}

unfoldable pub submit_task_state : ℕ → M (Unit {0})
submit_task_state id = exec (λ env t. on_task id submitted_row)

unfoldable pub approve_task_state : ℕ → M (Unit {0})
approve_task_state id = exec (λ env t. on_task id approved_row)

unfoldable pub reject_task_state : ℕ → Option ℕ → M (Unit {0})
reject_task_state id due = exec (λ env t. on_task id (rejected_row due))

unfoldable pub reopen_task_state : ℕ → Option ℕ → M (Unit {0})
reopen_task_state id due = exec (λ env t. on_task id (reopened_row due))

abbrev pub with_status : TaskStatus → Task → Task
with_status st r = record r { status = some st }

abbrev pub write_status : String → ℕ → Store → Option (Unit {0} × Store)
write_status st id s = elim (task_status_of st) [
  | none ↦ none
  | some v ↦ some (tt, on_task id (with_status v) s)
]

-- The status is the client's text, cast without a check.
unfoldable pub update_task_status : String → ℕ → M (Unit {0})
update_task_status st id = write_checked (λ env t. write_status st id)

abbrev pub with_fulfillment : TaskFulfillmentStatus → Task → Task
with_fulfillment f r = record r { fulfillment_status = some f }

unfoldable pub update_task_fulfillment : TaskFulfillmentStatus → ℕ → M (Unit {0})
update_task_fulfillment f id = exec (λ env t. on_task id (with_fulfillment f))

abbrev pub with_deadline : Option ℕ → Task → Task
with_deadline due r = record r { due_date = due }

unfoldable pub update_task_deadline : ℕ → Option ℕ → M (Unit {0})
update_task_deadline id due = exec (λ env t. on_task id (with_deadline due))

unfoldable pub get_task_by_id : ℕ → M Task
get_task_by_id id = select_one (task_by_id id)

-- tasks JOIN teams
abbrev pub org_of_task : ℕ → Store → Option ℕ
org_of_task id s = elim (task_by_id id s) [
  | none ↦ none
  | some task ↦ elim (team_by_id task.team_id s) [ none ↦ none | some team ↦ some team.org_id ]
]

unfoldable pub get_task_org_id : ℕ → M ℕ
get_task_org_id id = select_one (org_of_task id)

abbrev pub title_of_task : ℕ → Store → Option String
title_of_task id s = elim (task_by_id id s) [ none ↦ none | some task ↦ some task.title ]

unfoldable pub get_task_details_for_notifications : ℕ → M String
get_task_details_for_notifications id = select_one (title_of_task id)

unfoldable pub add_task_update : ℕ → Option ℕ → String → M ℕ
add_task_update task_id user_id content = returning (λ env t s. (
  env.gen_uuid t,
  record s {
    task_updates =
        s.task_updates
        ++ record { id = env.gen_uuid t; task_id = task_id; user_id = user_id; content = content }
          ∷ [];
  },
))

-- CreateTaskParams
pub record CreateTaskParams : Type 0 where
  pub team_id : ℕ
  pub title : String
  pub description : Option String
  pub created_by : ℕ
  pub due_date : Option ℕ

-- The row, with the defaults of the table
abbrev pub created_row : ℕ → ℕ → CreateTaskParams → Task
created_row id at p = record {
  id = id;
  team_id = p.team_id;
  title = p.title;
  description = p.description;
  status = some opened;
  fulfillment_status = some TaskFulfillmentStatus.pending;
  review_status = unsubmitted;
  created_by = p.created_by;
  due_date = p.due_date;
  created_at = at;
}

abbrev pub with_task : Task → Store → Task × Store
with_task row s = (row, record s { tasks = s.tasks ++ row ∷ [] })

unfoldable pub insert_task : CreateTaskParams → M Task
insert_task p = returning (λ env t. with_task (created_row (env.gen_uuid t) (env.clock t) p))

abbrev pub detailed_row : String → Option String → Option ℕ → Task → Task
detailed_row title description due r = record r {
  title = title;
  description = description;
  due_date = due;
}

unfoldable pub update_task_row : ℕ → String → Option String → Option ℕ → M (Unit {0})
update_task_row id title description due =
    exec (λ env t. on_task id (detailed_row title description due))
