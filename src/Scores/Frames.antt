-- ===== src/Scores/Frames.antt =====
-- What the score service leaves alone when it writes scores: the tasks and the reminders.
use abhiyan.Prelude.{ℕ, Option, none, some, List, ◌≡◌, subst, arith}
use abhiyan.Schema.{Task, Reminder, Store}
use abhiyan.Db.{M, ◌>>=◌, for_each}
use abhiyan.Db.Triples.{
  Keeps, keeps_rules, Keeps-bind, Keeps-for_each, Keeps-select, Keeps-select_one, Keeps-pure,
  Keeps-write_checked, Triple-exec,
}
use abhiyan.Sql.Tasks.{get_task_by_id}
use abhiyan.Sql.Participants.{AssigneeRow, get_task_assignees_with_context}
use abhiyan.Sql.Scores.{ScoreEvent, insert_score, insert_score_event, supersede_score_events}
use abhiyan.Scores.Record.{
  approve_assignee, approve_assignees, record_approval, reject_assignee, reject_assignees,
  record_rejection, reopen_assignee, record_reopen,
}

abbrev pub Rows : (List Task → List Reminder → Type 0) → Store → Type 0
Rows R s = R s.tasks s.reminders

module _ (R : List Task → List Reminder → Type 0) where
  inserted-Rows :
      (id : ℕ) (e : ScoreEvent) (s : Store) (i : ℕ) (s' : Store)
      → Rows R s
      → insert_score id e s ≡ some (i, s')
      → Rows R s'
  inserted-Rows id e s i s' h eq =
      let tasks : s.tasks ≡ s'.tasks = ground arith in
      let reminders : s.reminders ≡ s'.reminders = ground arith in
      subst (λ r. R s'.tasks r) reminders (subst (λ t. R t s.reminders) tasks h)

  insert-Rows : (e : ScoreEvent) → Keeps (Rows R) (insert_score_event e)
  unfolding insert_score_event
  insert-Rows e =
      Keeps-write_checked _ (λ env t s h i s' eq. inserted-Rows (env.gen_uuid t) e s i s' h eq)

  supersede-Rows : (t u : ℕ) → Keeps (Rows R) (supersede_score_events t u)
  unfolding supersede_score_events
  supersede-Rows t u = Triple-exec _ (λ env i s h. h)

  approve_assignee-Rows :
      (t at due : ℕ) (task : Task) (a : AssigneeRow)
      → Keeps (Rows R) (approve_assignee t at due task a)
  unfolding approve_assignee
  approve_assignee-Rows t at due task a = search (keeps_rules, supersede-Rows, insert-Rows)

  reject_assignee-Rows : (t due : ℕ) (a : AssigneeRow) → Keeps (Rows R) (reject_assignee t due a)
  unfolding reject_assignee
  reject_assignee-Rows t due a = search (keeps_rules, supersede-Rows, insert-Rows)

  reopen_assignee-Rows : (t : ℕ) (a : AssigneeRow) → Keeps (Rows R) (reopen_assignee t a)
  unfolding reopen_assignee
  reopen_assignee-Rows t a = search (keeps_rules, supersede-Rows)

  over_assignees-Rows :
      (t : ℕ) (body : AssigneeRow → M (Unit {0}))
      → ((a : AssigneeRow) → Keeps (Rows R) (body a))
      → Keeps (Rows R) (get_task_assignees_with_context t >>= λ rows. for_each rows body)
  unfolding get_task_assignees_with_context
  over_assignees-Rows t body f =
      Keeps-bind _ _ (Keeps-select _) (λ rows. Keeps-for_each rows body f)

  approve_assignees-Rows :
      (t at : ℕ) (task : Task) (due : Option ℕ) → Keeps (Rows R) (approve_assignees t at task due)
  unfolding approve_assignees
  approve_assignees-Rows t at task none = Keeps-pure tt
  approve_assignees-Rows t at task (some due) =
      over_assignees-Rows t _ (approve_assignee-Rows t at due task)

  pub record_approval-Rows : (t at : ℕ) → Keeps (Rows R) (record_approval t at)
  unfolding record_approval get_task_by_id
  record_approval-Rows t at =
      Keeps-bind _ _ (Keeps-select_one _) (λ task. approve_assignees-Rows t at task task.due_date)

  reject_assignees-Rows : (t : ℕ) (due : Option ℕ) → Keeps (Rows R) (reject_assignees t due)
  unfolding reject_assignees
  reject_assignees-Rows t none = Keeps-pure tt
  reject_assignees-Rows t (some due) = over_assignees-Rows t _ (reject_assignee-Rows t due)

  pub record_rejection-Rows : (t : ℕ) → Keeps (Rows R) (record_rejection t)
  unfolding record_rejection get_task_by_id
  record_rejection-Rows t =
      Keeps-bind _ _ (Keeps-select_one _) (λ task. reject_assignees-Rows t task.due_date)

  pub record_reopen-Rows : (t : ℕ) → Keeps (Rows R) (record_reopen t)
  unfolding record_reopen
  record_reopen-Rows t = over_assignees-Rows t _ (reopen_assignee-Rows t)
