-- ===== src/Tasks/Atomicity.antt =====
-- An operation that reports an error has changed nothing.
use abhiyan.Tasks.Comment.{post_update_comment}
use abhiyan.Tasks.Post.{PostRequest, post_task_update}
use abhiyan.Prelude.{
  ℕ, String, Bool, true, false, Option, none, some, List, [], ◌∷◌, ◌≡◌, refl, str_eq,
}
use abhiyan.Db.{enqueue, Env, Db, Error, err}
use abhiyan.Db.Rules.{
  Quiet, Total, Atomic, Atomic-transaction, Atomic-then, Atomic-bind, Quiet-parse_uuid,
  Quiet-attempt, Quiet-select, Total-for_each, Total-ignore, Total-pure, Total-bind, Total-if,
  Quiet-enqueue,
}
use abhiyan.Db.Sure.{Atomic-Sure, Atomic-write_checked, Sure-ignore, Sure-pure, Sure-if}
use abhiyan.Sql.Tasks.{update_task_status}
use abhiyan.Sql.Participants.{is_task_assignee}
use abhiyan.Tasks.Notify.{notify_assignees_whatsapp, whatsapp_to}
use abhiyan.Tasks.Files.{delete_from_s3}
use abhiyan.Tasks.Status.{set_status}
use abhiyan.Tasks.Submit.{submit_task_for_review, submit_body, is_true}
use abhiyan.Tasks.Approve.{approve_task, approve_body}
use abhiyan.Tasks.Action.{ActionTaskRequest, action_task, action_body, action_sent, is_reject}
use abhiyan.Tasks.Reopen.{reopen_task, reopen_body}
use abhiyan.Tasks.Opening.{Atomic-opening, Quiet-assert, Quiet-require}
use abhiyan.Tasks.Calls.{comment, post, Call, update, submit, approve, act, reopen, edit, run}
use abhiyan.Tasks.Guards.{assert_users_in_org, assert_user_in_org, assert_team_in_org}
use abhiyan.Sql.Orgs.{get_team_org_id, is_user_in_org}
use abhiyan.Db.Rules.{quiet_rules}
use abhiyan.Tasks.Create.{TaskRequest, create_task, create_body}
use abhiyan.Tasks.Update.{update_task_details, update_body}

whatsapp-Total : (p : Option String) (t s : String) → Total (whatsapp_to p t s)
whatsapp-Total none t s = Total-pure tt
whatsapp-Total (some phone) t s = Total-if _ _ _ (Total-pure tt) (Total-ignore _ (Quiet-enqueue _))

pub notify_whatsapp-Total :
    (ps : List (Option String)) (t s : String) → Total (notify_assignees_whatsapp ps t s)
unfolding notify_assignees_whatsapp
notify_whatsapp-Total ps t s = Total-for_each ps _ (λ p. whatsapp-Total p t s)

pub delete_from_s3-Total : (us : List String) → Total (delete_from_s3 us)
unfolding delete_from_s3 enqueue
delete_from_s3-Total [] = Total-pure tt
delete_from_s3-Total (u ∷ us) = record { at = λ env db. (tt, refl, refl) }

pub action_sent-Total :
    (b : Bool) (sent : List (Option String) × String × List String) → Total (action_sent b sent)
unfolding action_sent
action_sent-Total true sent =
    Total-bind _ _ (notify_whatsapp-Total _ _ _) (λ _. delete_from_s3-Total sent.2)
action_sent-Total false sent = delete_from_s3-Total sent.2

update-Atomic : (task status caller : String) → Atomic (set_status task status caller)
unfolding set_status update_task_status
update-Atomic task status caller = Atomic-opening task caller _ (λ t o.
    Atomic-Sure _ _ (Atomic-write_checked _)
      (λ _. Sure-if (str_eq status "CLOSED") _ _ (Sure-ignore _) (Sure-pure tt)))

submit-Atomic : (task user caller : String) → Atomic (submit_task_for_review task user caller)
unfolding submit_task_for_review is_task_assignee
submit-Atomic task user caller = Atomic-bind _ _ (Quiet-parse_uuid task) (λ t.
    Atomic-bind _ _ (Quiet-parse_uuid user) (λ u. Atomic-bind _ _ (Quiet-parse_uuid caller) (λ o.
      Atomic-bind _ _ (Quiet-assert t o) (λ _.
        Atomic-bind _ _ (Quiet-attempt _ (Quiet-select _)) (λ found.
          Atomic-bind _ _ (Quiet-require (is_true found) _)
            (λ _. Atomic-transaction (submit_body t u o)))))))

approve-Atomic : (task admin caller : String) → Atomic (approve_task task admin caller)
unfolding approve_task
approve-Atomic task admin caller = Atomic-opening task caller _ (λ t o.
    Atomic-then _ _ (Atomic-transaction (approve_body t o admin))
      (λ sent. notify_whatsapp-Total sent.0 sent.1 _))

act-Atomic :
    (action task user : String) (req : ActionTaskRequest) (caller : String)
    → Atomic (action_task action task user req caller)
unfolding action_task
act-Atomic action task user req caller = Atomic-opening task caller _ (λ t o.
    Atomic-then _ _ (Atomic-transaction (action_body action t o user req))
      (action_sent-Total (is_reject action)))

reopen-Atomic :
    (task user : String) (req : ActionTaskRequest) (caller : String)
    → Atomic (reopen_task task user req caller)
unfolding reopen_task
reopen-Atomic task user req caller =
    Atomic-opening task caller _ (λ t o. Atomic-transaction (reopen_body t o user req))

pub Quiet-assert_users : (texts : List String) (o : ℕ) → Quiet (assert_users_in_org texts o)
unfolding assert_users_in_org assert_user_in_org is_user_in_org
Quiet-assert_users texts o = search (quiet_rules, Quiet-require) depth 8

pub Quiet-assert_team : (t o : ℕ) → Quiet (assert_team_in_org t o)
unfolding assert_team_in_org get_team_org_id
Quiet-assert_team t o = search (quiet_rules, Quiet-require) depth 8

edit-Atomic :
    (task : String) (req : TaskRequest) (user caller : String)
    → Atomic (update_task_details task req user caller)
unfolding update_task_details
edit-Atomic task req user caller = Atomic-opening task caller _ (λ t o.
    search
      (
        Atomic-bind,
        Quiet-assert_users,
        Atomic-then,
        Atomic-transaction (update_body t o user req),
        delete_from_s3-Total,
      )
      depth 8)

post-Atomic :
    (task user : String) (req : PostRequest) (caller : String)
    → Atomic (post_task_update task user req caller)
unfolding post_task_update
post-Atomic task user req caller =
    Atomic-opening task caller _
      (λ t o. Atomic-bind _ _ (Quiet-assert_users _ o) (λ _. Atomic-transaction _))

comment-Atomic :
    (task entry user : String) (req : PostRequest) (caller : String)
    → Atomic (post_update_comment task entry user req caller)
unfolding post_update_comment
comment-Atomic task entry user req caller = Atomic-opening task caller _ (λ t o.
    Atomic-bind _ _ (Quiet-assert_users _ o)
      (λ _. Atomic-Sure _ _ (Atomic-transaction _) (λ ids. Sure-ignore _)))

run-Atomic : (c : Call) → Atomic (run c)
unfolding run
run-Atomic (update task status caller) = update-Atomic task status caller
run-Atomic (submit task user caller) = submit-Atomic task user caller
run-Atomic (approve task admin caller) = approve-Atomic task admin caller
run-Atomic (act action task user req caller) = act-Atomic action task user req caller
run-Atomic (reopen task user req caller) = reopen-Atomic task user req caller
run-Atomic (edit task req user caller) = edit-Atomic task req user caller
run-Atomic (post task user req caller) = post-Atomic task user req caller
run-Atomic (comment task entry user req caller) = comment-Atomic task entry user req caller

-- Whatever statements fail, at whatever point, an operation that returns an error leaves every
-- table as it was: setting a status, submitting, approving, rejecting, both kinds of reopening,
-- editing the details, posting an update and commenting on one.
pub run_error_unchanged :
    (c : Call) (env : Env) (db : Db) {e : Error}
    → (run c env db).0 ≡ err e
    → (run c env db).1.store ≡ db.store
run_error_unchanged c env db h = (run-Atomic c).at env db h

-- Whatever statements fail, creating a task that returns an error leaves every table as it was.
pub create_error_unchanged :
    (admin team : String) (req : TaskRequest) (caller : String) (env : Env) (db : Db) {e : Error}
    → (create_task admin team req caller env db).0 ≡ err e
    → (create_task admin team req caller env db).1.store ≡ db.store
unfolding create_task
create_error_unchanged admin team req caller env db h = create-Atomic.at env db h
  where
    create-Atomic : Atomic (create_task admin team req caller)
    create-Atomic =
        search
          (
            Atomic-bind,
            Quiet-parse_uuid,
            Quiet-assert_team,
            Quiet-assert_users,
            λ (t : ℕ) (o : ℕ). Atomic-transaction (create_body admin t o req),
          )
          depth 12
