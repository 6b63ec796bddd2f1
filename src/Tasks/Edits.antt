-- ===== src/Tasks/Edits.antt =====
-- What creating a task and editing its details have checked when they succeed, and what an edit has
-- changed.
use abhiyan.Prelude.{ℕ, String, true, some, List, [], ◌∷◌, ◌≡◌, sym, subst, ◌∙◌, ap, All}
use mathlib.Core.Path.{subst₂}
use abhiyan.Schema.{Store}
use abhiyan.Db.{Env, Db, M, ok, ◌>>=◌, parse_uuid, select, for_each, transaction, not_in_org}
use abhiyan.Db.Rules.{bind-ok, Quiet, quiet_rules}
use abhiyan.Sql.Tasks.{org_of_task}
use abhiyan.Sql.Orgs.{belongs, is_user_in_org}
use abhiyan.Tasks.Guards.{assert_user_in_org, assert_users_in_org}
use abhiyan.Tasks.Create.{TaskRequest}
use abhiyan.Tasks.Update.{update_task_details, update_body}
use abhiyan.Tasks.Files.{delete_from_s3}
use abhiyan.Tasks.Editing.{AfterEdit, update_body-Rows}
use abhiyan.Tasks.Atomicity.{Quiet-assert_users, delete_from_s3-Total}
use abhiyan.Tasks.Opening.{select-ok, parse-ok, require-ok, Quiet-require, opened, committed_then}

-- Every text is the id of an active member of the organization.
abbrev pub AreMembers : List String → ℕ → Env → Store → Type 0
AreMembers texts o env s =
    All (λ text. (u : ℕ) × (env.parse_uuid text ≡ some u) × (belongs u o s ≡ true)) texts

assert_user-ok :
    (o : ℕ) (text : String) (env : Env) (db : Db) {x : Unit {0}}
    → (assert_user_in_org o text env db).0 ≡ ok x
    → (u : ℕ) × (env.parse_uuid text ≡ some u) × (belongs u o db.store ≡ true)
unfolding assert_user_in_org is_user_in_org
assert_user-ok o text env db h =
    let (u, p1, s1) = bind-ok (parse_uuid text) _ env db h in
    let (parsed, same) = parse-ok text env db p1 in
    let db1 = (parse_uuid text env db).1 in
    let h1 = ap (λ r. r.0) (sym s1) ∙ h in
    let (b, p2, s2) = bind-ok (select (λ env t. belongs u o)) _ env db1 h1 in
    let member = select-ok _ env db1 b p2 in
    let passed = require-ok b not_in_org env _ (ap (λ r. r.0) (sym s2) ∙ h1) in
    (u, parsed, subst (λ d. belongs u o d.store ≡ true) same (sym member ∙ passed))

Quiet-assert_user : (o : ℕ) (text : String) → Quiet (assert_user_in_org o text)
unfolding assert_user_in_org is_user_in_org
Quiet-assert_user o text = search (quiet_rules, Quiet-require)

pub assert_users-ok :
    (texts : List String) (o : ℕ) (env : Env) (db : Db) {x : Unit {0}}
    → (assert_users_in_org texts o env db).0 ≡ ok x
    → AreMembers texts o env db.store
unfolding assert_users_in_org for_each
assert_users-ok [] o env db h = tt
assert_users-ok (text ∷ texts) o env db h =
    let (_, p, s) = bind-ok (assert_user_in_org o text) _ env db h in
    let db1 = (assert_user_in_org o text env db).1 in
    let rest = assert_users-ok texts o env db1 (ap (λ r. r.0) (sym s) ∙ h) in
    (
      assert_user-ok o text env db p,
      subst (λ z. AreMembers texts o env z) ((Quiet-assert_user o text).at env db) rest,
    )

-- The ids were good, the task and all its participants are of the caller's organization, and the
-- tables are as the edit leaves them.
abbrev pub Edited : String → TaskRequest → String → Env → Store → Store → Type 0
Edited task req caller env before after =
    (t : ℕ) × (o : ℕ) × (env.parse_uuid task ≡ some t)
    × (env.parse_uuid caller ≡ some o)
    × (org_of_task t before ≡ some o)
    × AreMembers req.assignee_ids o env before
    × AreMembers req.subscriber_ids o env before
    × AfterEdit req t before after

abbrev edit_rest : TaskRequest → String → ℕ → ℕ → M (Unit {0})
edit_rest req user t o = assert_users_in_org req.assignee_ids o >>= λ _.
    assert_users_in_org req.subscriber_ids o >>= λ _.
    transaction (update_body t o user req) >>= delete_from_s3

edited :
    (req : TaskRequest) (user : String) (t o : ℕ) (env : Env) (db : Db) {x : Unit {0}}
    → (edit_rest req user t o env db).0 ≡ ok x
    → AreMembers req.assignee_ids o env db.store
      × AreMembers req.subscriber_ids o env db.store
      × AfterEdit req t db.store (edit_rest req user t o env db).1.store
edited req user t o env db h =
    let (_, p1, s1) = bind-ok (assert_users_in_org req.assignee_ids o) _ env db h in
    let db1 = (assert_users_in_org req.assignee_ids o env db).1 in
    let e1 : db1.store ≡ db.store = (Quiet-assert_users req.assignee_ids o).at env db in
    let h1 = ap (λ r. r.0) (sym s1) ∙ h in
    let (_, p2, s2) = bind-ok (assert_users_in_org req.subscriber_ids o) _ env db1 h1 in
    let db2 = (assert_users_in_org req.subscriber_ids o env db1).1 in
    let e2 : db2.store ≡ db1.store = (Quiet-assert_users req.subscriber_ids o).at env db1 in
    let h2 = ap (λ r. r.0) (sym s2) ∙ h1 in
    let held =
      committed_then (AfterEdit req t db2.store) (update_body t o user req) delete_from_s3 env db2
        (update_body-Rows t o user req db2.store) delete_from_s3-Total h2 in
    let left = subst (AfterEdit req t db2.store) (sym (ap (λ r. r.1.store) (s1 ∙ s2))) held in
    (
      assert_users-ok req.assignee_ids o env db p1,
      subst (AreMembers req.subscriber_ids o env) e1
          (assert_users-ok req.subscriber_ids o env db1 p2),
      subst (λ z. AfterEdit req t z (edit_rest req user t o env db).1.store) (e2 ∙ e1) left,
    )

-- An edit that succeeds names a task of the caller's organization, and assignees and subscribers
-- that are active members of it. It sets the task's title, description (none where it is empty) and
-- due date and nothing else of it; the task's reminders are then one row for each of the
-- request's, in order; no other task and no other task's reminder changes.
pub update_task_details-Edited :
    (task : String) (req : TaskRequest) (user caller : String) (env : Env) (db : Db) {x : Unit {0}}
    → (update_task_details task req user caller env db).0 ≡ ok x
    → Edited task req caller env db.store (update_task_details task req user caller env db).1.store
unfolding update_task_details
update_task_details-Edited task req user caller env db h =
    let o = opened task caller (edit_rest req user) env db h in
    let same = o.goes_on in
    let (assigned, subscribed, left) =
      edited req user o.task_id o.org_id env o.next (ap (λ r. r.0) (sym same) ∙ h) in
    let kept = o.unchanged in
    (
      o.task_id,
      o.org_id,
      o.task_parsed,
      o.org_parsed,
      o.in_org,
      subst (AreMembers req.assignee_ids o.org_id env) kept assigned,
      subst (AreMembers req.subscriber_ids o.org_id env) kept subscribed,
      subst₂ (AfterEdit req o.task_id) kept (ap (λ r. r.1.store) (sym same)) left,
    )
