-- ===== src/Tasks/Submission.antt =====
-- What a submission that succeeds has checked, and what it leaves of the tasks and the reminders.
use abhiyan.Prelude.{
  ℕ, String, Bool, true, Option, none, some, List, ◌≡◌, refl, sym, subst, ◌∙◌, ap, ◌==◌, ◌&&◌, any,
  update_where,
}
use abhiyan.Schema.Enums.{is_assignee, is_pending}
use abhiyan.Schema.{Task, Reminder, EmployeeScore, Store}
use abhiyan.Db.{
  Env, Db, M, Result, ok, err, ◌>>=◌, attempt, transaction, parse_uuid, not_assignee, forget,
}
use abhiyan.Db.Rules.{bind-ok, Quiet-attempt, Quiet-select}
use abhiyan.Db.Triples.{Keeps, Triple-exec, Triple-ignore, keeps_rules, Keeps-pure}
use abhiyan.Db.Committed.{Ensures, Ensures-step, Ensures-Triple, transaction_committed}
use abhiyan.Sql.Tasks.{submit_task_state, submitted_row, org_of_task, get_task_by_id}
use abhiyan.Sql.Reminders.{cancel_task_reminders, cancelled_row}
use abhiyan.Sql.Participants.{is_task_assignee}
use abhiyan.Sql.Orgs.{get_user_name_by_id}
use abhiyan.Sql.Notifications.{create_task_card_notification}
use abhiyan.Scores.Frames.{Rows}
use abhiyan.Tasks.Guards.{assert_task_in_org, require}
use abhiyan.Tasks.Submit.{submit_task_for_review, submit_body, review_card, is_true}
use abhiyan.Tasks.Frames.{Core, add_task_update-Core, get_title-Core}
use abhiyan.Tasks.Opening.{select-ok, parse-ok, assert-ok, Quiet-assert, Quiet-require, require-ok}
use abhiyan.Tasks.Lifecycle.{Are, on_tasks}

-- The user is one of the task's assignees.
abbrev pub is_assigned : ℕ → ℕ → Store → Bool
is_assigned t u s =
    any (λ p. (p.task_id == t) && (p.user_id == u) && is_assignee p.role) s.task_participants

abbrev pub cancelled : ℕ → List Reminder → List Reminder
cancelled t = update_where (λ r. (r.task_id == t) && is_pending r.status) cancelled_row

module _ (R : List Task → List Reminder → List EmployeeScore → Type 0) where
  card-Core :
      (t o : ℕ) (name title : String) (task : Option Task)
      → Keeps (Core R) (review_card t o name title task)
  unfolding review_card create_task_card_notification
  card-Core t o name title none = Keeps-pure tt
  card-Core t o name title (some task) = search keeps_rules

-- The tasks and the reminders that a submission leaves
abbrev pub AfterSubmission : ℕ → Store → Store → Type 0
AfterSubmission t before =
    Rows (Are (on_tasks t submitted_row before.tasks) (cancelled t before.reminders))

submit_body-rows :
    (t u o : ℕ) (s0 : Store) → Ensures (λ s. s ≡ s0) (submit_body t u o) (λ _. AfterSubmission t s0)
unfolding submit_body submit_task_state cancel_task_reminders get_user_name_by_id get_task_by_id
submit_body-rows t u o s0 =
    let ts = on_tasks t submitted_row s0.tasks in
    let rs = cancelled t s0.reminders in
    let R : List Task → List Reminder → List EmployeeScore → Type 0 = λ x y z. Are ts rs x y in
    Ensures-step _ _
      (Triple-exec {Q = Rows (Are ts s0.reminders)} _
        (λ env i s h. (ap (λ z. on_tasks t submitted_row z.tasks) h, ap (λ z. z.reminders) h)))
      (λ _.
        Ensures-step _ _
          (Triple-ignore _
            (Triple-exec {Q = Rows (Are ts rs)} _ (λ env i s h. (h.0, ap (cancelled t) h.1))))
          (λ _.
            Ensures-Triple _ (
              search (keeps_rules, get_title-Core R, add_task_update-Core R, card-Core R) depth
                20)))

forgot :
    (a : Bool) (r : Result Bool) (found : Option Bool)
    → ((b : Bool) → r ≡ ok b → b ≡ a)
    → forget r ≡ ok found
    → is_true found ≡ true
    → a ≡ true
forgot a (ok b) none q h t = cc
forgot a (ok b) (some c) q h t = let e = q b refl in cc
forgot a (err e) none q h t = cc
forgot a (err e) (some b) q h t = cc

assigned-ok :
    (t u : ℕ) (env : Env) (db : Db) {found : Option Bool}
    → (attempt (is_task_assignee t u) env db).0 ≡ ok found
    → is_true found ≡ true
    → is_assigned t u db.store ≡ true
unfolding attempt is_task_assignee
assigned-ok t u env db h p =
    forgot (is_assigned t u db.store) (is_task_assignee t u env db).0 _
      (λ b e. select-ok _ env db b e) h p

-- What a submission that returned has checked, and what its transaction did
abbrev pub Submitted : String → String → String → Env → Store → Store → Type 0
Submitted task user caller env before after =
    (t : ℕ) × (u : ℕ) × (o : ℕ) × (env.parse_uuid task ≡ some t)
    × (env.parse_uuid user ≡ some u)
    × (env.parse_uuid caller ≡ some o)
    × (org_of_task t before ≡ some o)
    × (is_assigned t u before ≡ true)
    × AfterSubmission t before after

abbrev checked_submission : ℕ → ℕ → ℕ → M (Unit {0})
checked_submission t u o = assert_task_in_org t o >>= λ _.
    attempt (is_task_assignee t u) >>= λ found.
    require (is_true found) not_assignee >>= λ _. transaction (submit_body t u o)

submit_rest :
    (t u o : ℕ) (env : Env) (db : Db) {x : Unit {0}}
    → (checked_submission t u o env db).0 ≡ ok x
    → (org_of_task t db.store ≡ some o)
      × (is_assigned t u db.store ≡ true)
      × AfterSubmission t db.store (checked_submission t u o env db).1.store
unfolding is_task_assignee
submit_rest t u o env db h =
    let (_, p1, s1) = bind-ok (assert_task_in_org t o) _ env db h in
    let db1 = (assert_task_in_org t o env db).1 in
    let e1 : db1.store ≡ db.store = (Quiet-assert t o).at env db in
    let h1 = ap (λ r. r.0) (sym s1) ∙ h in
    let (found, p2, s2) = bind-ok (attempt (is_task_assignee t u)) _ env db1 h1 in
    let db2 = (attempt (is_task_assignee t u) env db1).1 in
    let e2 : db2.store ≡ db1.store = (Quiet-attempt _ (Quiet-select _)).at env db1 in
    let h2 = ap (λ r. r.0) (sym s2) ∙ h1 in
    let (_, p3, s3) = bind-ok (require (is_true found) not_assignee) _ env db2 h2 in
    let db3 = (require (is_true found) not_assignee env db2).1 in
    let e3 : db3.store ≡ db2.store = (Quiet-require (is_true found) not_assignee).at env db2 in
    let same : db3.store ≡ db.store = e3 ∙ e2 ∙ e1 in
    let h3 = ap (λ r. r.0) (sym s3) ∙ h2 in
    let held =
      transaction_committed (λ _. AfterSubmission t db3.store) (submit_body t u o) env db3
        (submit_body-rows t u o db3.store) refl h3 in
    let left =
      subst (AfterSubmission t db3.store) (sym (ap (λ r. r.1.store) (s1 ∙ s2 ∙ s3))) held in
    (
      assert-ok t o env db p1,
      subst (λ s. is_assigned t u s ≡ true) e1
          (assigned-ok t u env db1 p2 (require-ok (is_true found) not_assignee env db2 p3)),
      subst (λ s. AfterSubmission t s (checked_submission t u o env db).1.store) same left,
    )

-- A submission that succeeds was made by an assignee of the task it names, which is one of the
-- caller's organization. It completes the task and puts it up for review, cancels the task's
-- reminders that are pending, and changes no other task and no other reminder.
pub submit_task-Submitted :
    (task user caller : String) (env : Env) (db : Db) {x : Unit {0}}
    → (submit_task_for_review task user caller env db).0 ≡ ok x
    → Submitted task user caller env db.store
        (submit_task_for_review task user caller env db).1.store
unfolding submit_task_for_review
submit_task-Submitted task user caller env db h =
    let (t, pt, st) = bind-ok (parse_uuid task) _ env db h in
    let (et, dt) = parse-ok task env db pt in
    let db1 = (parse_uuid task env db).1 in
    let h1 = ap (λ r. r.0) (sym st) ∙ h in
    let (u, pu, su) = bind-ok (parse_uuid user) _ env db1 h1 in
    let (eu, du) = parse-ok user env db1 pu in
    let db2 = (parse_uuid user env db1).1 in
    let h2 = ap (λ r. r.0) (sym su) ∙ h1 in
    let (o, po, so) = bind-ok (parse_uuid caller) _ env db2 h2 in
    let (eo, do') = parse-ok caller env db2 po in
    let db3 = (parse_uuid caller env db2).1 in
    let h3 = ap (λ r. r.0) (sym so) ∙ h2 in
    let same : db3.store ≡ db.store = ap (λ d. d.store) (do' ∙ du ∙ dt) in
    let (own, assigned, left) = submit_rest t u o env db3 h3 in
    (
      t,
      u,
      o,
      et,
      eu,
      eo,
      subst (λ s. org_of_task t s ≡ some o) same own,
      subst (λ s. is_assigned t u s ≡ true) same assigned,
      subst (λ s. AfterSubmission t s (submit_task_for_review task user caller env db).1.store) same
          (subst (AfterSubmission t db3.store) (sym (ap (λ r. r.1.store) (st ∙ su ∙ so))) left),
    )
