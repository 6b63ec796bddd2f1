-- ===== src/Tasks/Awards.antt =====
-- The score events that a successful approval, rejection or reopening leaves to the assignees.
use abhiyan.Prelude.{
  ℕ, String, Bool, true, false, Option, some, List, [], ◌∷◌, ◌≡◌, refl, sym, subst, find,
  update_where, join, All, ◌==◌, arith,
}
use abhiyan.Schema.{Task, EmployeeScore, Store}
use abhiyan.Db.{Env, Db, ok}
use abhiyan.Db.Triples.{
  Triple, Triple-exec, Triple-ignore, keeps_rules, Keeps-now, Keeps-parse_uuid,
}
use abhiyan.Db.Committed.{Ensures, Ensures-step, Ensures-Triple}
use abhiyan.Db.Firm.{Triple-Firm}
use abhiyan.Sql.Tasks.{
  task_by_id, on_task, approved_row, rejected_row, reopened_row, approve_task_state,
  reject_task_state, reopen_task_state,
}
use abhiyan.Sql.Participants.{assignee_rows, assignees_of}
use abhiyan.Scores.Award.{Only, NoEvents, AllLive}
use abhiyan.Scores.Awarded.{
  IsAward, IsRejection, Reads, record_approval_settles, record_rejection_settles,
  record_reopen_settles,
}
use abhiyan.Scores.Live.{live}
use abhiyan.Tasks.Approve.{approve_task, approve_body}
use abhiyan.Tasks.Action.{
  ActionTaskRequest, action_task, action_body, action_state, action_score, action_sent, is_reject,
}
use abhiyan.Tasks.Opening.{opened_at}
use abhiyan.Tasks.Frames.{post_note-Core}
use abhiyan.Tasks.Lifecycle.{approve_rest-Core}
use abhiyan.Tasks.Actions.{action_rest-Core}
use abhiyan.Tasks.Atomicity.{notify_whatsapp-Total, action_sent-Total}
use abhiyan.Tasks.Keeping.{ScoresOnly, delete-scores, rebuild-scores}

module _ (t : ℕ) (f : Task → Task) (ids : (r : Task) → (f r).id ≡ r.id) where
  find_updated :
      (rs : List Task) (task : Task)
      → find (λ r. r.id == t) rs ≡ some task
      → find (λ r. r.id == t) (update_where (λ r. r.id == t) f rs) ≡ some (f task)
  find_updated [] task h = cc
  find_updated (r ∷ rs) task h = ground (arith, find_updated rs task, ids r)

join_ext :
    {A B : Type 0} (g k : A → Option B) (xs : List A)
    → ((x : A) → g x ≡ k x)
    → join g xs ≡ join k xs
join_ext g k [] h = refl
join_ext g k (x ∷ xs) h = rw (h x, join_ext g k xs h)

-- An update that keeps the id and the team of the task keeps its assignees.
module _ (t : ℕ) (f : Task → Task) (ids : (r : Task) → (f r).id ≡ r.id)
    (teams : (r : Task) → (f r).team_id ≡ r.team_id) where
  updated_assignees :
      (s : Store) (task : Task)
      → task_by_id t s ≡ some task
      → assignee_rows t (on_task t f s) ≡ assignee_rows t s
  updated_assignees s task h =
      join_ext _ _ (assignees_of t s) (λ p. rw (find_updated t f ids s.tasks task h, h, teams task))

  -- What the transaction reads after the update
  updated-Reads :
      (s0 : Store) (task : Task) (due : ℕ) (d : (f task).due_date ≡ some due)
      → task_by_id t s0 ≡ some task
      → (s : Store) → s ≡ s0
      → Reads t (f task) due (assignee_rows t s0) d (on_task t f s)
  updated-Reads s0 task due d h s e =
      subst (λ z. Reads t (f task) due (assignee_rows t s0) d (on_task t f z)) (sym e)
        (find_updated t f ids s0.tasks task h, updated_assignees s0 task h)

approve_body-IsAward :
    (t o : ℕ) (admin : String) (s0 : Store) (task : Task) (due : ℕ)
    → task_by_id t s0 ≡ some task
    → task.due_date ≡ some due
    → Ensures
        (λ s. s ≡ s0)
        (approve_body t o admin)
        (λ _. AllLive (Only (IsAward due task.created_at)) t (assignee_rows t s0))
unfolding approve_body approve_task_state
approve_body-IsAward t o admin s0 task due h d =
    let rows = assignee_rows t s0 in
    let settles = record_approval_settles t (approved_row task) due rows d in
    let S : List EmployeeScore → Type 0 =
      λ es. All (λ a. Only (IsAward due task.created_at) (live t a.user_id es)) rows in
    Ensures-step _ _ (Keeps-parse_uuid admin) (λ a.
      Ensures-step _ _
        (Triple-exec _
          (λ env i. updated-Reads t approved_row (λ r. refl) (λ r. refl) s0 task due d h))
        (λ _. Ensures-step _ _ Keeps-now (λ at.
          Ensures-step _ _ (Triple-ignore _ (Triple-Firm _ (settles at))) (λ _.
            Ensures-Triple _
              (search (keeps_rules, delete-scores S, approve_rest-Core (ScoresOnly S)) depth 20)))))

-- A successful approval of a task with a due date leaves every assignee of the task exactly one
-- event that is not superseded, whatever events there were before: a completion whose type and
-- points calculate_points gives for the event's time, the due date and the task's creation.
pub approve_task_awards :
    (task admin caller : String) (env : Env) (db : Db) {x : Unit {0}} (t : ℕ) (row : Task) (due : ℕ)
    → (approve_task task admin caller env db).0 ≡ ok x
    → env.parse_uuid task ≡ some t
    → task_by_id t db.store ≡ some row
    → row.due_date ≡ some due
    → AllLive
        (Only (IsAward due row.created_at))
        t
        (assignee_rows t db.store)
        (approve_task task admin caller env db).1.store
unfolding approve_task
approve_task_awards task admin caller env db t row due done parsed h d =
    opened_at task caller (λ t o. approve_body t o admin) _ env db t _ parsed
      (λ o. approve_body-IsAward t o admin db.store row due h d)
      (λ sent. notify_whatsapp-Total sent.0 sent.1 _) done

-- What an action leaves of an assignee's live events: REJECT, with a due date, one rejection of no
-- points; and any other action, none.
abbrev pub AfterActionLive : Bool → ℕ → List EmployeeScore → Type 0
AfterActionLive true due = Only (IsRejection due)
AfterActionLive false due = NoEvents

module _ (t : ℕ) (s0 : Store) (task : Task) (due : ℕ) (h : task_by_id t s0 ≡ some task) where
  abbrev Ready : Bool → Store → Type 0
  Ready true s = Reads t (rejected_row (some due) task) due (assignee_rows t s0) refl s
  Ready false s = assignee_rows t s ≡ assignee_rows t s0

  acted-Ready : (b : Bool) → Triple (λ s. s ≡ s0) (action_state b t (some due)) (Ready b)
  unfolding reject_task_state reopen_task_state
  acted-Ready true = Triple-exec _ (λ env i.
      updated-Reads t (rejected_row (some due)) (λ r. refl) (λ r. refl) s0 task due refl h)
  acted-Ready false = Triple-exec _ (λ env i s e.
      (updated-Reads t (reopened_row (some due)) (λ r. refl) (λ r. refl) s0 task due refl h s e).1)

  scored_live :
      (b : Bool)
      → Triple (Ready b) (action_score b t) (AllLive (AfterActionLive b due) t (assignee_rows t s0))
  scored_live true =
      Triple-Firm _
        (record_rejection_settles t (rejected_row (some due) task) due (assignee_rows t s0) refl)
  scored_live false = Triple-Firm _ (record_reopen_settles t (assignee_rows t s0))

  action_body-live :
      (action user : String) (req : ActionTaskRequest) (o : ℕ)
      → req.due_date ≡ some due
      → Ensures
          (λ s. s ≡ s0)
          (action_body action t o user req)
          (λ _. AllLive (AfterActionLive (is_reject action) due) t (assignee_rows t s0))
  unfolding action_body
  action_body-live action user req o d =
      let b = is_reject action in
      let S : List EmployeeScore → Type 0 =
        λ es. All (λ a. AfterActionLive b due (live t a.user_id es)) (assignee_rows t s0) in
      let state : Triple (λ s. s ≡ s0) (action_state b t req.due_date) (Ready b) =
        rw d (acted-Ready b) in
      Ensures-step _ _ (Keeps-parse_uuid user) (λ u. Ensures-step _ _ state (λ _.
        Ensures-step _ _ (Triple-ignore _ (scored_live b)) (λ _. Ensures-Triple _ (
          search
            (
              keeps_rules,
              post_note-Core (ScoresOnly S),
              delete-scores S,
              rebuild-scores S,
              action_rest-Core (ScoresOnly S) action,
            )
            depth 20))))

-- A successful rejection with a new due date leaves every assignee of the task exactly one event
-- that is not superseded, a rejection of no points; a successful reopening with one leaves none.
pub action_task_awards :
    (action task user : String) (req : ActionTaskRequest) (caller : String) (env : Env) (db : Db)
    {x : Unit {0}} (t : ℕ) (row : Task) (due : ℕ)
    → (action_task action task user req caller env db).0 ≡ ok x
    → env.parse_uuid task ≡ some t
    → task_by_id t db.store ≡ some row
    → req.due_date ≡ some due
    → AllLive
        (AfterActionLive (is_reject action) due)
        t
        (assignee_rows t db.store)
        (action_task action task user req caller env db).1.store
unfolding action_task
action_task_awards action task user req caller env db t row due done parsed h d =
    opened_at task caller (λ t o. action_body action t o user req) (action_sent (is_reject action))
      env db t _ parsed (λ o. action_body-live t db.store row due h action user req o d)
      (action_sent-Total (is_reject action)) done
