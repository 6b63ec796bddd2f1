-- ===== src/Tasks/Actions.antt =====
-- What a successful rejection, reopening or submission does to the tasks and the reminders.
use abhiyan.Prelude.{ℕ, String, Bool, true, false, Option, List, [], ◌≡◌, ap}
use abhiyan.Schema.{Task, Reminder, EmployeeScore, Store}
use abhiyan.Db.{Env, Db, ok}
use abhiyan.Db.Triples.{
  Keeps, Triple, Triple-exec, Triple-ignore, Triple-attempt, Keeps-parse_uuid, Keeps-bind,
  Keeps-pure, keeps_rules,
}
use abhiyan.Db.Committed.{Ensures, Ensures-step, Ensures-Triple}
use abhiyan.Sql.Tasks.{rejected_row, reopened_row, reject_task_state, reopen_task_state}
use abhiyan.Scores.Frames.{Rows, record_rejection-Rows, record_reopen-Rows}
use abhiyan.Tasks.Action.{
  ActionTaskRequest, is_reject, action_state, action_score, action_phones, action_rest, action_body,
  action_task, action_sent,
}
use abhiyan.Tasks.Frames.{
  Core, notify-Core, get_title-Core, get_participants-Core, get_phones-Core, post_note-Core,
  diff_attachments-Core,
}
use abhiyan.Tasks.Opening.{Effect, opened_committed}
use abhiyan.Tasks.Atomicity.{action_sent-Total}
use abhiyan.Tasks.Lifecycle.{Are, others, on_tasks, deleted}
use abhiyan.Tasks.Rebuild.{Rebuilt, rebuild-Rebuilt}

-- The row that the action leaves: REJECT rejects, and anything else reopens.
abbrev pub acted_row : Bool → Option ℕ → Task → Task
acted_row true due = rejected_row due
acted_row false due = reopened_row due

acted :
    (b : Bool) (t : ℕ) (due : Option ℕ) (s0 : Store)
    → Triple
        (λ s. s ≡ s0)
        (action_state b t due)
        (Rows (Are (on_tasks t (acted_row b due) s0.tasks) s0.reminders))
unfolding reject_task_state reopen_task_state
acted true t due s0 =
    Triple-exec _
      (λ env i s h. (ap (λ z. on_tasks t (rejected_row due) z.tasks) h, ap (λ z. z.reminders) h))
acted false t due s0 =
    Triple-exec _
      (λ env i s h. (ap (λ z. on_tasks t (reopened_row due) z.tasks) h, ap (λ z. z.reminders) h))

scored :
    (R : List Task → List Reminder → Type 0) (b : Bool) (t : ℕ) → Keeps (Rows R) (action_score b t)
scored R true t = record_rejection-Rows R t
scored R false t = record_reopen-Rows R t

module _ (R : List Task → List Reminder → List EmployeeScore → Type 0) where
  phones-Core : (b : Bool) (t : ℕ) → Keeps (Core R) (action_phones b t)
  unfolding action_phones
  phones-Core true t =
      Keeps-bind _ _ (Triple-attempt _ (get_phones-Core R t)) (λ phones. Keeps-pure _)
  phones-Core false t = Keeps-pure []

  pub action_rest-Core :
      (action : String) (t o u : ℕ) (req : ActionTaskRequest)
      → Keeps (Core R) (action_rest action t o u req)
  unfolding action_rest
  action_rest-Core action t o u req =
      search
        (
          keeps_rules,
          get_title-Core R,
          get_participants-Core R,
          notify-Core R,
          phones-Core (is_reject action),
          diff_attachments-Core R,
        )
        depth 16

-- The tasks and the reminders that an action leaves, from those before it
abbrev pub AfterAction : String → ActionTaskRequest → ℕ → Store → Store → Type 0
AfterAction action req t before after =
    Rows
      (Rebuilt (on_tasks t (acted_row (is_reject action) req.due_date) before.tasks)
        (others t before.reminders) t req.reminders)
      after

action_body-rows :
    (action user : String) (req : ActionTaskRequest) (t o : ℕ) (s0 : Store)
    → Ensures (λ s. s ≡ s0) (action_body action t o user req) (λ _. AfterAction action req t s0)
unfolding action_body
action_body-rows action user req t o s0 =
    let ts = on_tasks t (acted_row (is_reject action) req.due_date) s0.tasks in
    let kept = others t s0.reminders in
    Ensures-step _ _ (Keeps-parse_uuid user) (λ u.
      Ensures-step _ _ (acted (is_reject action) t req.due_date s0) (λ _.
        Ensures-step _ _ (Triple-ignore _ (scored (Are ts s0.reminders) (is_reject action) t)) (λ _.
          Ensures-step _ _ (post_note-Core (λ x y z. Are ts s0.reminders x y) t u _ req.note) (λ _.
            Ensures-step _ _ (Triple-ignore _ (deleted ts t s0.reminders)) (λ _.
              Ensures-step _ _ (rebuild-Rebuilt ts kept t req.reminders) (λ _. Ensures-Triple _ (
                action_rest-Core (λ x y z. Rebuilt ts kept t req.reminders x y) action t o u
                  req)))))))

-- A rejection or a reopening that succeeds sets the task it names, one of the caller's
-- organization, to OPEN and PENDING, with the review status of the action (REJECT rejects, any
-- other text reopens) and the request's due date, which is none where the request has none. The
-- task's reminders are then one row for each of the request's, in order; no other task and no other
-- task's reminder changes.
pub action_task_rows :
    (action task user : String) (req : ActionTaskRequest) (caller : String) (env : Env) (db : Db)
    {x : Unit {0}}
    → (action_task action task user req caller env db).0 ≡ ok x
    → Effect task caller
        (AfterAction action req)
        env
        db.store
        (action_task action task user req caller env db).1.store
unfolding action_task
action_task_rows action task user req caller env db h =
    opened_committed task caller (AfterAction action req) (λ t o. action_body action t o user req)
      (action_sent (is_reject action)) (action_body-rows action user req)
      (action_sent-Total (is_reject action)) env db h
