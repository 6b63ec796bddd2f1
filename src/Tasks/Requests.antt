-- ===== src/Tasks/Requests.antt =====
-- A statement about the scores that the score service keeps is kept by every request and poll,
-- whatever statements fail, and so by every history.
use abhiyan.Sql.Updates.{add_update_comment}
use abhiyan.Db.Triples.{keeps_rules, Keeps, Keeps-parse_uuid, Keeps-bind}
use abhiyan.Tasks.Posting.{Outside, comment_sent-Outside, comment_files-Outside, post_rest-Outside}
use abhiyan.Tasks.Comment.{comment_body, comment_sent, post_update_comment}
use abhiyan.Tasks.Post.{post_body, PostRequest, post_task_update}
use abhiyan.Prelude.{ℕ, String, List, [], ◌∷◌, subst}
use abhiyan.Schema.{EmployeeScore}
use abhiyan.Db.{Env, Db}
use abhiyan.Db.Always.{
  Always, Always-Quiet, Always-Total, Always-bind, Always-ignore, Always-attempt, Always-exec,
  Always-write_checked, Always-if, Always-transaction,
}
use abhiyan.Db.Rules.{Quiet-parse_uuid, Quiet-attempt, Quiet-select, Quiet-pure, Quiet-now}
use abhiyan.Sql.Tasks.{add_task_update, update_task_status}
use abhiyan.Sql.Reminders.{delete_task_reminders}
use abhiyan.Sql.Participants.{is_task_assignee}
use abhiyan.Sql.Scores.{Candidate, get_missed_deadline_candidates}
use abhiyan.Scores.Record.{record_missed, poll_missed_deadlines, counted}
use abhiyan.Tasks.Status.{set_status}
use abhiyan.Tasks.Submit.{submit_task_for_review}
use abhiyan.Tasks.Approve.{approve_task}
use abhiyan.Tasks.Action.{ActionTaskRequest, action_task}
use abhiyan.Tasks.Reopen.{reopen_task}
use abhiyan.Tasks.Opening.{Quiet-assert, Quiet-require}
use abhiyan.Tasks.Atomicity.{notify_whatsapp-Total, action_sent-Total}
use abhiyan.Tasks.Keeping.{
  Invariant, On, status_written, approve-scores, action-scores, submit-scores, reopen-scores,
}
use abhiyan.Tasks.Create.{TaskRequest, create_task}
use abhiyan.Tasks.Update.{update_task_details}
use abhiyan.Tasks.Editing.{edit-scores, create_body-scores}
use abhiyan.Tasks.Atomicity.{Quiet-assert_users, Quiet-assert_team, delete_from_s3-Total}
use abhiyan.Tasks.Calls.{
  comment, post, edit, create, Call, update, submit, approve, act, reopen, run, Event, request,
  poll, step, history,
}

module _ (S : List EmployeeScore → Type 0) (inv : Invariant S) where
  status-Always : (st : String) (t : ℕ) → Always (On S) (update_task_status st t)
  unfolding update_task_status
  status-Always st t =
      Always-write_checked _ (λ env i s h x s' eq. subst S (status_written st t s x s' eq) h)

  delete-Always : (t : ℕ) → Always (On S) (delete_task_reminders t)
  unfolding delete_task_reminders
  delete-Always t = Always-exec _ (λ env i s h. h)

  update-Always : (task status caller : String) → Always (On S) (set_status task status caller)
  unfolding set_status
  update-Always task status caller =
      search
        (
          Always-bind, Always-if, Always-ignore, Always-Quiet, Quiet-parse_uuid, Quiet-assert,
          Quiet-pure, status-Always, delete-Always,
        )
        depth 14

  submit-Always :
      (task user caller : String) → Always (On S) (submit_task_for_review task user caller)
  unfolding submit_task_for_review is_task_assignee
  submit-Always task user caller =
      search
        (
          Always-bind,
          Always-Quiet,
          Quiet-parse_uuid,
          Quiet-assert,
          Quiet-attempt,
          Quiet-select,
          Quiet-require,
          Always-transaction,
          submit-scores S inv,
        )
        depth 14

  approve-Always : (task admin caller : String) → Always (On S) (approve_task task admin caller)
  unfolding approve_task
  approve-Always task admin caller =
      search
        (
          Always-bind,
          Always-Quiet,
          Quiet-parse_uuid,
          Quiet-assert,
          Always-transaction,
          Always-Total,
          notify_whatsapp-Total,
          approve-scores S inv,
        )
        depth 14

  act-Always :
      (action task user : String) (req : ActionTaskRequest) (caller : String)
      → Always (On S) (action_task action task user req caller)
  unfolding action_task
  act-Always action task user req caller =
      search
        (
          Always-bind,
          Always-Quiet,
          Quiet-parse_uuid,
          Quiet-assert,
          Always-transaction,
          Always-Total,
          action_sent-Total,
          action-scores S inv,
        )
        depth 14

  reopen-Always :
      (task user : String) (req : ActionTaskRequest) (caller : String)
      → Always (On S) (reopen_task task user req caller)
  unfolding reopen_task
  reopen-Always task user req caller =
      search
        (
          Always-bind,
          Always-Quiet,
          Quiet-parse_uuid,
          Quiet-assert,
          Always-transaction,
          reopen-scores S inv,
        )
        depth 14

  edit-Always :
      (task : String) (req : TaskRequest) (user caller : String)
      → Always (On S) (update_task_details task req user caller)
  unfolding update_task_details
  edit-Always task req user caller =
      search
        (
          Always-bind,
          Always-Quiet,
          Quiet-parse_uuid,
          Quiet-assert,
          Quiet-assert_users,
          Always-transaction,
          Always-Total,
          delete_from_s3-Total,
          edit-scores S,
        )
        depth 14

  create-Always :
      (admin team : String) (req : TaskRequest) (caller : String)
      → Always (On S) (create_task admin team req caller)
  unfolding create_task
  create-Always admin team req caller =
      search
        (
          Always-bind,
          Always-Quiet,
          Quiet-parse_uuid,
          Quiet-assert_team,
          Quiet-assert_users,
          Always-transaction,
          create_body-scores S,
        )
        depth 14

  scores-Outside : Outside (On S)
  scores-Outside = record {
    told = λ s ns h. h;
    filed = λ s xs h. h;
    queued = λ s is h. h;
    transcoded = λ s is h. h;
  }

  sent-Always : (t o e u : ℕ) (req : PostRequest) → Always (On S) (comment_sent t o e u req)
  sent-Always = comment_sent-Outside (On S) scores-Outside

  post-scores : (t o : ℕ) (req : PostRequest) (u : ℕ) → Keeps (On S) (post_body t o req u)
  unfolding post_body add_task_update
  post-scores t o req u = search (keeps_rules, post_rest-Outside (On S) scores-Outside) depth 8

  comment-scores : (req : PostRequest) (e u : ℕ) → Keeps (On S) (comment_body req e u)
  unfolding comment_body add_update_comment
  comment-scores req e u = search (keeps_rules, comment_files-Outside (On S) scores-Outside) depth 8

  post-Always :
      (task user : String) (req : PostRequest) (caller : String)
      → Always (On S) (post_task_update task user req caller)
  unfolding post_task_update
  post-Always task user req caller =
      search
        (
          Always-bind, Always-Quiet, Quiet-parse_uuid, Quiet-assert, Quiet-assert_users,
          Always-transaction, Keeps-bind, Keeps-parse_uuid, post-scores,
        )
        depth 14

  comment-Always :
      (task entry user : String) (req : PostRequest) (caller : String)
      → Always (On S) (post_update_comment task entry user req caller)
  unfolding post_update_comment
  comment-Always task entry user req caller =
      search
        (
          Always-bind, Always-Quiet, Always-ignore, Quiet-parse_uuid, Quiet-assert,
          Quiet-assert_users, Always-transaction, Keeps-bind, Keeps-parse_uuid, comment-scores,
          sent-Always,
        )
        depth 14

  run-Always : (c : Call) → Always (On S) (run c)
  unfolding run
  run-Always (update task status caller) = update-Always task status caller
  run-Always (submit task user caller) = submit-Always task user caller
  run-Always (approve task admin caller) = approve-Always task admin caller
  run-Always (act action task user req caller) = act-Always action task user req caller
  run-Always (reopen task user req caller) = reopen-Always task user req caller
  run-Always (edit task req user caller) = edit-Always task req user caller
  run-Always (post task user req caller) = post-Always task user req caller
  run-Always (comment task entry user req caller) = comment-Always task entry user req caller

  missed-Always : (cs : List Candidate) (n : ℕ) → Always (On S) (record_missed cs n)
  unfolding record_missed
  missed-Always [] n = Always-Quiet (Quiet-pure n)
  missed-Always (c ∷ cs) n = Always-bind _ _ (Always-Quiet Quiet-now) (λ at.
      Always-bind _ _ (Always-attempt _ (inv.missed at c)) (λ i. missed-Always cs (counted i n)))

  poll-Always : Always (On S) poll_missed_deadlines
  unfolding poll_missed_deadlines get_missed_deadline_candidates
  poll-Always = Always-bind _ _ (Always-Quiet (Quiet-select _)) (λ cs. missed-Always cs 0)

  step-keeps : (env : Env) (e : Event) (db : Db) → On S db.store → On S (step env e db).store
  unfolding step
  step-keeps env (request c) db h = (run-Always c).at env db h
  step-keeps env (create admin team req caller) db h =
      (create-Always admin team req caller).at env db h
  step-keeps env poll db h = poll-Always.at env db h

  -- What the score service keeps, every history keeps.
  pub history-keeps :
      (env : Env) (es : List Event) (db : Db) → On S db.store → On S (history env es db).store
  unfolding history
  history-keeps env [] db h = h
  history-keeps env (e ∷ es) db h = history-keeps env es (step env e db) (step-keeps env e db h)
