-- ===== src/Tests/Data.antt =====
-- A small organization: a team, its admin, one assignee, and a task that is due in ten days.
use abhiyan.Prelude.{
  true, ℕ, ◌==◌, ◌*◌, ◌+◌, String, false, Option, none, some, [], ◌∷◌, str_eq, if◌then◌else◌,
}
use abhiyan.Schema.Enums.{
  team_admin, member, employee, super_admin, opened, unsubmitted, assignee, active,
  on_time_completion,
}
use abhiyan.Schema.Enums.{TaskFulfillmentStatus}
use abhiyan.Schema.{Task, User, EmployeeScore, Store}
use abhiyan.Db.{Env, Db}
use abhiyan.Scores.Points.{day}
use abhiyan.Tasks.Create.{TaskRequest}
use abhiyan.Tasks.Action.{ActionTaskRequest}

abbrev pub uuids : String → Option ℕ
uuids s =
    if str_eq s "task"
    then some 1
    else if str_eq s "team"
    then some 10
    else if str_eq s "admin"
    then some 7
    else if str_eq s "worker"
    then some 8
    else if str_eq s "org"
    then some 100
    else if str_eq s "other"
    then some 200
    else if str_eq s "depot"
    then some 11
    else none

-- How those ids are printed
abbrev pub texts : ℕ → String
texts n =
    if n == 1
    then "task"
    else if n == 7
    then "admin"
    else if n == 8
    then "worker"
    else if n == 10
    then "team"
    else "uuid"

-- Every statement succeeds, five days after the epoch.
abbrev pub calm : Env
calm = record {
  fault = λ n. false;
  gen_uuid = λ n. 1000 + n;
  clock = λ n. 5 * day;
  parse_uuid = uuids;
  uuid_string = texts;
}

-- The fourth statement is refused.
abbrev pub stormy : Env
stormy = record {
  fault = λ n. n == 3;
  gen_uuid = λ n. 1000 + n;
  clock = λ n. 5 * day;
  parse_uuid = uuids;
  uuid_string = texts;
}

abbrev pub a_task : Task
a_task = record {
  id = 1;
  team_id = 10;
  title = "Report";
  description = none;
  status = some opened;
  fulfillment_status = some TaskFulfillmentStatus.pending;
  review_status = unsubmitted;
  created_by = 7;
  due_date = some (10 * day);
  created_at = 0;
}

abbrev user : ℕ → String → User
user id name = record {
  id = id;
  first_name = some name;
  last_name = none;
  email_id = name;
  phone_number = some "+15550100";
  face_s3_uri = some "faces/1";
}

abbrev old_score : EmployeeScore
old_score = record {
  id = 50;
  task_id = 1;
  user_id = 8;
  team_id = 10;
  org_id = 100;
  event_type = on_time_completion;
  points_awarded = 15;
  due_date_snapshot = some (10 * day);
  event_at = 0;
  superseded = false;
}

abbrev pub tables : Store
tables = record {
  tasks = a_task ∷ [];
  teams =
      record { id = 10; org_id = 100; name = "Field" }
      ∷ record { id = 11; org_id = 100; name = "Depot" }
      ∷ [];
  users = user 7 "Ada" ∷ user 8 "Grace" ∷ [];
  org_memberships =
      record { user_id = 7; org_id = 100; status = active }
      ∷ record { user_id = 8; org_id = 100; status = active }
      ∷ [];
  organizations = record { id = 100; name = "Acme"; attendance_enabled = true } ∷ [];
  user_system_roles =
      record { user_id = 7; org_id = 100; role = super_admin }
      ∷ record { user_id = 8; org_id = 100; role = employee }
      ∷ [];
  task_participants = record { task_id = 1; user_id = 8; role = assignee } ∷ [];
  team_members =
      record { team_id = 10; user_id = 8; team_role = member }
      ∷ record { team_id = 10; user_id = 7; team_role = team_admin }
      ∷ [];
  reminders = [];
  task_updates = [];
  task_update_comments = [];
  notifications = [];
  attachments = [];
  transcriptions = [];
  audio_transcodes = [];
  employee_scores = old_score ∷ [];
  team_leaderboard_settings = [];
  attendance_records = [];
  app_kv = [];
}

abbrev pub server : Db
server = record { store = tables; in_tx = false; aborted = false; tick = 0; jobs = [] }

abbrev pub a_request : ActionTaskRequest
a_request = record {
  note = "Again";
  due_date = some (20 * day);
  reminders =
      record {
        scheduled_at = 12 * day;
        channel = "EMAIL";
        recurrence_value = some 2;
        recurrence_unit = some "DAYS";
      }
      ∷ [];
  attachments = [];
}

abbrev pub an_edit : TaskRequest
an_edit = record {
  title = "Second report";
  description = "";
  due_date = none;
  assignee_ids = "worker" ∷ [];
  subscriber_ids = "admin" ∷ [];
  reminders = [];
  attachments = [];
}
