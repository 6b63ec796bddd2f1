-- ===== src/Tasks/Isolation.antt =====
-- Operations on a task succeed only within its organization.
use abhiyan.Tasks.Comment.{post_update_comment}
use abhiyan.Tasks.Post.{post_task_update}
use abhiyan.Prelude.{ℕ, String, some, ◌≡◌}
use abhiyan.Schema.{Store}
use abhiyan.Db.{Env, Db, ok, M}
use abhiyan.Sql.Tasks.{org_of_task}
use abhiyan.Tasks.Status.{set_status}
use abhiyan.Tasks.Approve.{approve_task}
use abhiyan.Tasks.Action.{action_task}
use abhiyan.Tasks.Reopen.{reopen_task}
use abhiyan.Tasks.Update.{update_task_details}
use abhiyan.Tasks.Calls.{
  comment, post, edit, Call, update, submit, approve, act, reopen, run, task_of, caller_of,
}
use abhiyan.Tasks.Opening.{Opened, opened}
use abhiyan.Tasks.Submission.{submit_task-Submitted}

-- The two texts are ids, and the organization is the one of the task's team.
abbrev pub Within : String → String → Env → Store → Type 0
Within task caller env s =
    (t : ℕ) × (o : ℕ) × (env.parse_uuid task ≡ some t)
    × (env.parse_uuid caller ≡ some o)
    × (org_of_task t s ≡ some o)

Opened-Within :
    {A : Type 0} (task caller : String) (m : M A) (rest : ℕ → ℕ → M A) (env : Env) (db : Db)
    → Opened task caller m rest env db
    → Within task caller env db.store
Opened-Within task caller m rest env db o =
    (o.task_id, o.org_id, o.task_parsed, o.org_parsed, o.in_org)

-- Whatever operation on a task succeeds (setting a status, submitting, approving, rejecting,
-- reopening, editing the details, posting an update, commenting on one), the task belongs to a team of the caller's organization.
pub run-Within :
    (c : Call) (env : Env) (db : Db) {x : Unit {0}}
    → (run c env db).0 ≡ ok x
    → Within (task_of c) (caller_of c) env db.store
unfolding run set_status approve_task action_task reopen_task update_task_details post_task_update
    post_update_comment
run-Within (update task status caller) env db h =
    Opened-Within task caller _ _ env db (opened task caller _ env db h)
run-Within (submit task user caller) env db h =
    let (t, u, o, et, eu, eo, own, assigned, left) =
      submit_task-Submitted task user caller env db h in
    (t, o, et, eo, own)
run-Within (approve task admin caller) env db h =
    Opened-Within task caller _ _ env db (opened task caller _ env db h)
run-Within (act action task user req caller) env db h =
    Opened-Within task caller _ _ env db (opened task caller _ env db h)
run-Within (reopen task user req caller) env db h =
    Opened-Within task caller _ _ env db (opened task caller _ env db h)
run-Within (edit task req user caller) env db h =
    Opened-Within task caller _ _ env db (opened task caller _ env db h)
run-Within (post task user req caller) env db h =
    Opened-Within task caller _ _ env db (opened task caller _ env db h)
run-Within (comment task entry user req caller) env db h =
    Opened-Within task caller _ _ env db (opened task caller _ env db h)
