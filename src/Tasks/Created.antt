-- ===== src/Tasks/Created.antt =====
-- What a task that was created successfully has checked, and what it leaves of the tasks and the
-- reminders.
use abhiyan.Prelude.{
  ℕ, String, Option, none, some, List, [], ◌∷◌, ◌++◌, ◌≡◌, refl, sym, subst, ◌∙◌, ap,
}
use mathlib.Core.List.{append-nil}
use mathlib.Core.Path.{subst₂}
use abhiyan.Prelude.{◌==◌, ==_iff}
use abhiyan.Db.{select_one, wrong_org}
use abhiyan.Sql.Tasks.{team_by_id}
use abhiyan.Sql.Orgs.{get_team_org_id}
use abhiyan.Tasks.Guards.{assert_team_in_org, assert_users_in_org}
use abhiyan.Tasks.Atomicity.{Quiet-assert_team, Quiet-assert_users}
use abhiyan.Tasks.Opening.{parse-ok, require-ok, select_one-ok}
use abhiyan.Tasks.Edits.{AreMembers, assert_users-ok}
use abhiyan.Schema.{Task, Reminder, EmployeeScore, Store}
use abhiyan.Db.{Env, Db, ok, M, ◌>>=◌, parse_uuid, transaction}
use abhiyan.Db.Rules.{bind-ok}
use abhiyan.Db.Triples.{keeps_rules, Keeps-parse_uuid}
use abhiyan.Db.Committed.{
  Ensures, Ensures-bind, Ensures-step, Ensures-pure, Ensures-returning, transaction_committed,
}
use abhiyan.Db.Firm.{Triple-Firm}
use abhiyan.Sql.Tasks.{created_row, insert_task}
use abhiyan.Tasks.Create.{TaskRequest, task_params, create_body, create_rest, create_task}
use abhiyan.Tasks.Editing.{add_participant-Core, assigned-Core, subscribed-Core}
use abhiyan.Tasks.Frames.{Core, insert_attachment-Core}
use abhiyan.Tasks.Rebuild.{Rebuilt, created-Rebuilt}

-- The row is the one that the request asks for, open, pending and not submitted.
abbrev pub IsCreated : ℕ → TaskRequest → Task → Type 0
IsCreated team req row =
    (id : ℕ) × (at : ℕ) × (admin : ℕ) × (row ≡ created_row id at (task_params team admin req))

-- The tables after it: the row comes last, and the request's reminders come last, in order.
abbrev pub AfterCreate : ℕ → TaskRequest → Store → Task → Store → Type 0
AfterCreate team req before row after =
    IsCreated team req row
    × Rebuilt (before.tasks ++ row ∷ []) before.reminders row.id req.reminders after.tasks
        after.reminders

module _ (team : ℕ) (req : TaskRequest) (s0 : Store) where
  abbrev Stage : Task → List Task → List Reminder → List EmployeeScore → Type 0
  Stage row tasks reminders scores =
      IsCreated team req row × Rebuilt (s0.tasks ++ row ∷ []) s0.reminders row.id [] tasks reminders

  abbrev Final : Task → List Task → List Reminder → List EmployeeScore → Type 0
  Final row tasks reminders scores =
      IsCreated team req row
      × Rebuilt (s0.tasks ++ row ∷ []) s0.reminders row.id req.reminders tasks reminders

  inserted-Stage :
      (admin : ℕ)
      → Ensures (λ s. s ≡ s0) (insert_task (task_params team admin req)) (λ row. Core (Stage row))
  unfolding insert_task
  inserted-Stage admin = Ensures-returning _ (λ env t s h. (
    (env.gen_uuid t, env.clock t, admin, refl),
    (
      ap
          (λ z.
            z.tasks ++ created_row (env.gen_uuid t) (env.clock t) (task_params team admin req) ∷ [])
          h,
      ([], tt, ap (λ z. z.reminders) h ∙ sym (append-nil s0.reminders)),
    ),
  ))

  rest-Final :
      (row : Task) (o admin : ℕ)
      → Ensures
          (Core (Stage row))
          (create_rest row o admin req)
          (λ r s. AfterCreate team req s0 r s)
  unfolding create_rest
  rest-Final row o admin =
      Ensures-step {Q = Core (Stage row)} _ _ (search (keeps_rules, assigned-Core (Stage row)))
        (λ _.
          Ensures-step {Q = Core (Stage row)} _ _
            (search (keeps_rules, subscribed-Core (Stage row)))
            (λ _.
              Ensures-step _ _
                (Triple-Firm _ (
                  created-Rebuilt (IsCreated team req row) (s0.tasks ++ row ∷ []) s0.reminders
                    row.id [] req.reminders))
                (λ _.
                  Ensures-step {Q = Core (Final row)} _ _
                    (search (keeps_rules, insert_attachment-Core (Final row)))
                    (λ _. Ensures-pure row (λ s h. h)))))

  created :
      (admin : String) (o : ℕ)
      → Ensures
          (λ s. s ≡ s0)
          (create_body admin team o req)
          (λ row s. AfterCreate team req s0 row s)
  unfolding create_body
  created admin o = Ensures-step _ _ (Keeps-parse_uuid admin) (λ a.
      Ensures-bind _ _ (inserted-Stage a) (λ row.
        Ensures-step {Q = Core (Stage row)} _ _
          (search (keeps_rules, add_participant-Core (Stage row)))
          (λ _.
            Ensures-step {Q = Core (Stage row)} _ _
              (search (keeps_rules, add_participant-Core (Stage row))) (λ _. rest-Final row o a))))

abbrev pub org_of_team : ℕ → Store → Option ℕ
org_of_team id s = elim (team_by_id id s) [ none ↦ none | some team ↦ some team.org_id ]

assert_team-ok :
    (t o : ℕ) (env : Env) (db : Db) {x : Unit {0}}
    → (assert_team_in_org t o env db).0 ≡ ok x
    → org_of_team t db.store ≡ some o
unfolding assert_team_in_org get_team_org_id
assert_team-ok t o env db h =
    let (org, read, same) = bind-ok (select_one (org_of_team t)) _ env db h in
    let passed =
      require-ok (org == o) wrong_org env (select_one (org_of_team t) env db).1
        (ap (λ r. r.0) (sym same) ∙ h) in
    select_one-ok (org_of_team t) env db read ∙ ap some ((==_iff org o).0 passed)

-- What a creation that returned `row` has checked, and what its transaction did
abbrev pub CreatedBy : String → TaskRequest → String → Env → Store → Task → Store → Type 0
CreatedBy team req caller env before row after =
    (t : ℕ) × (o : ℕ) × (env.parse_uuid team ≡ some t)
    × (env.parse_uuid caller ≡ some o)
    × (org_of_team t before ≡ some o)
    × AreMembers req.assignee_ids o env before
    × AreMembers req.subscriber_ids o env before
    × AfterCreate t req before row after

abbrev create_checked : String → ℕ → ℕ → TaskRequest → M Task
create_checked admin t o req = assert_team_in_org t o >>= λ _.
    assert_users_in_org req.assignee_ids o >>= λ _.
    assert_users_in_org req.subscriber_ids o >>= λ _. transaction (create_body admin t o req)

checked_create :
    (admin : String) (t o : ℕ) (req : TaskRequest) (env : Env) (db : Db) {row : Task}
    → (create_checked admin t o req env db).0 ≡ ok row
    → (org_of_team t db.store ≡ some o)
      × AreMembers req.assignee_ids o env db.store
      × AreMembers req.subscriber_ids o env db.store
      × AfterCreate t req db.store row (create_checked admin t o req env db).1.store
checked_create admin t o req env db {row} h =
    let (_, p1, s1) = bind-ok (assert_team_in_org t o) _ env db h in
    let db1 = (assert_team_in_org t o env db).1 in
    let e1 : db1.store ≡ db.store = (Quiet-assert_team t o).at env db in
    let h1 = ap (λ r. r.0) (sym s1) ∙ h in
    let (_, p2, s2) = bind-ok (assert_users_in_org req.assignee_ids o) _ env db1 h1 in
    let db2 = (assert_users_in_org req.assignee_ids o env db1).1 in
    let e2 : db2.store ≡ db1.store = (Quiet-assert_users req.assignee_ids o).at env db1 in
    let h2 = ap (λ r. r.0) (sym s2) ∙ h1 in
    let (_, p3, s3) = bind-ok (assert_users_in_org req.subscriber_ids o) _ env db2 h2 in
    let db3 = (assert_users_in_org req.subscriber_ids o env db2).1 in
    let e3 : db3.store ≡ db2.store = (Quiet-assert_users req.subscriber_ids o).at env db2 in
    let h3 = ap (λ r. r.0) (sym s3) ∙ h2 in
    let held =
      transaction_committed (λ r s. AfterCreate t req db3.store r s) (create_body admin t o req) env
        db3 (created t req db3.store admin o) refl h3 in
    let same : db3.store ≡ db.store = e3 ∙ e2 ∙ e1 in
    (
      assert_team-ok t o env db p1,
      subst (AreMembers req.assignee_ids o env) e1 (assert_users-ok req.assignee_ids o env db1 p2),
      subst (AreMembers req.subscriber_ids o env) (e2 ∙ e1)
          (assert_users-ok req.subscriber_ids o env db2 p3),
      subst₂ (λ b a. AfterCreate t req b row a) same (ap (λ r. r.1.store) (sym (s1 ∙ s2 ∙ s3)))
          held,
    )

-- A task that is created successfully belongs to a team of the caller's organization, and its
-- assignees and subscribers are active members of it. The row that is returned is the request's,
-- open, pending and not submitted, and it is added to the tasks; a row for each of the request's
-- reminders, in order, is added to the reminders; no other task and no other reminder changes.
pub create_task-CreatedBy :
    (admin team : String) (req : TaskRequest) (caller : String) (env : Env) (db : Db) {row : Task}
    → (create_task admin team req caller env db).0 ≡ ok row
    → CreatedBy team req caller env db.store row (create_task admin team req caller env db).1.store
unfolding create_task
create_task-CreatedBy admin team req caller env db {row} h =
    let (o, p0, s0) = bind-ok (parse_uuid caller) _ env db h in
    let (eo, d0) = parse-ok caller env db p0 in
    let db0 = (parse_uuid caller env db).1 in
    let h0 = ap (λ r. r.0) (sym s0) ∙ h in
    let (t, p1, s1) = bind-ok (parse_uuid team) _ env db0 h0 in
    let (et, d1) = parse-ok team env db0 p1 in
    let db1 = (parse_uuid team env db0).1 in
    let h1 = ap (λ r. r.0) (sym s1) ∙ h0 in
    let same : db1.store ≡ db.store = ap (λ d. d.store) (d1 ∙ d0) in
    let (own, assigned, subs, left) = checked_create admin t o req env db1 h1 in
    (
      t,
      o,
      et,
      eo,
      subst (λ s. org_of_team t s ≡ some o) same own,
      subst (AreMembers req.assignee_ids o env) same assigned,
      subst (AreMembers req.subscriber_ids o env) same subs,
      subst₂ (λ b a. AfterCreate t req b row a) same (ap (λ r. r.1.store) (sym (s0 ∙ s1))) left,
    )
