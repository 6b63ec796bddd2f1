-- ===== src/Tasks/Calls.antt =====
-- The operations on a task that a client or the worker can ask for, as one type: the handlers of
-- server/internal/handlers/tasks.go pass a request on to the service, and the poller is the
-- worker's. A history is any sequence of them.
use abhiyan.Prelude.{String, List, [], ◌∷◌}
use abhiyan.Db.{Env, Db, M}
use abhiyan.Scores.Record.{poll_missed_deadlines}
use abhiyan.Tasks.Create.{TaskRequest, create_task}
use abhiyan.Tasks.Update.{update_task_details}
use abhiyan.Tasks.Status.{set_status}
use abhiyan.Tasks.Submit.{submit_task_for_review}
use abhiyan.Tasks.Approve.{approve_task}
use abhiyan.Tasks.Action.{ActionTaskRequest, action_task}
use abhiyan.Tasks.Reopen.{reopen_task}
use abhiyan.Tasks.Post.{PostRequest, post_task_update}
use abhiyan.Tasks.Comment.{post_update_comment}

-- task, acting user, caller's organization; `act` has the action and the request, `update` the
-- status, and `comment` the timeline entry that it is on
pub data Call : Type 0 where
  update : String → String → String → Call
  submit : String → String → String → Call
  approve : String → String → String → Call
  act : String → String → String → ActionTaskRequest → String → Call
  reopen : String → String → ActionTaskRequest → String → Call
  edit : String → TaskRequest → String → String → Call
  post : String → String → PostRequest → String → Call
  comment : String → String → String → PostRequest → String → Call

unfoldable pub run : Call → M (Unit {0})
run (update task status caller) = set_status task status caller
run (submit task user caller) = submit_task_for_review task user caller
run (approve task admin caller) = approve_task task admin caller
run (act action task user req caller) = action_task action task user req caller
run (reopen task user req caller) = reopen_task task user req caller
run (edit task req user caller) = update_task_details task req user caller
run (post task user req caller) = post_task_update task user req caller
run (comment task entry user req caller) = post_update_comment task entry user req caller

-- The task that a call names, and the organization of the caller
abbrev pub task_of : Call → String
task_of (update task status caller) = task
task_of (submit task user caller) = task
task_of (approve task admin caller) = task
task_of (act action task user req caller) = task
task_of (reopen task user req caller) = task
task_of (edit task req user caller) = task
task_of (post task user req caller) = task
task_of (comment task entry user req caller) = task

abbrev pub caller_of : Call → String
caller_of (update task status caller) = caller
caller_of (submit task user caller) = caller
caller_of (approve task admin caller) = caller
caller_of (act action task user req caller) = caller
caller_of (reopen task user req caller) = caller
caller_of (edit task req user caller) = caller
caller_of (post task user req caller) = caller
caller_of (comment task entry user req caller) = caller

-- What happens next: a request on a task, a new task (admin, team, request, caller's organization),
-- or the worker's poll
pub data Event : Type 0 where
  request : Call → Event
  create : String → String → TaskRequest → String → Event
  poll : Event

unfoldable pub step : Env → Event → Db → Db
step env (request c) db = (run c env db).1
step env (create admin team req caller) db = (create_task admin team req caller env db).1
step env poll db = (poll_missed_deadlines env db).1

unfoldable pub history : Env → List Event → Db → Db
history env [] db = db
history env (e ∷ es) db = history env es (step env e db)
