-- ===== src/Tasks/Statuses.antt =====
-- What a status that was set successfully has changed.
use abhiyan.Prelude.{
  eq_iff, ℕ, String, Bool, true, false, Option, none, some, ◌≡◌, refl, sym, subst, ◌∙◌, ap, ◌⊎◌,
  inl, inr, ◌||◌, Bool-cases, suc, str_eq, arith, if◌then◌else◌,
}
use abhiyan.Schema.Enums.{closed, TaskStatus, task_status_of}
use abhiyan.Schema.{Store}
use abhiyan.Db.{Env, Db, ok, M, pure, ◌>>=◌, settle, checked, write_checked, ignore, exec}
use abhiyan.Db.Rules.{bind-ok}
use abhiyan.Sql.Tasks.{update_task_status, with_status, on_task}
use abhiyan.Sql.Reminders.{delete_task_reminders}
use abhiyan.Tasks.Status.{set_status}
use abhiyan.Tasks.Lifecycle.{on_tasks, others}
use abhiyan.Tasks.Opening.{Effect, opened}

-- The reminders after the status: closing deletes the task's own, unless that statement is refused,
-- and opening keeps all.
abbrev pub Reminded : TaskStatus → ℕ → Env → Store → Store → Type 0
Reminded TaskStatus.opened t env before after = after.reminders ≡ before.reminders
Reminded closed t env before after =
    (after.reminders ≡ others t before.reminders)
    ⊎ ((n : ℕ) × (env.fault n ≡ true) × (after.reminders ≡ before.reminders))

-- The status is a label of the database's, the task has it, and the reminders are as it asks.
abbrev pub StatusSet : String → Env → ℕ → Store → Store → Type 0
StatusSet status env t before after =
    (v : TaskStatus) × (task_status_of status ≡ some v)
    × (after.tasks ≡ on_tasks t (with_status v) before.tasks)
    × Reminded v t env before after

abbrev Wrote : String → ℕ → Store → Store → Type 0
Wrote status t before after =
    (v : TaskStatus) × (task_status_of status ≡ some v) × (after ≡ on_task t (with_status v) before)

labelled :
    (t : ℕ) (o : Option TaskStatus) (s : Store) (next : Db) {x : Unit {0}}
    → (settle
        (checked (elim o as (λ _. Option (Unit {0} × Store)) [
          | none ↦ none
          | some v ↦ some (tt, on_task t (with_status v) s)
        ]))
        next).0
      ≡ ok x
    → (v : TaskStatus) × (o ≡ some v)
      × ((settle
            (checked (elim o as (λ _. Option (Unit {0} × Store)) [
              | none ↦ none
              | some v ↦ some (tt, on_task t (with_status v) s)
            ]))
            next).1.store
          ≡ on_task t (with_status v) s)
labelled t none s next h = cc
labelled t (some v) s next h = (v, refl, refl)

going :
    (o : Option TaskStatus) (t : ℕ) (s : Store) (next : Db) {x : Unit {0}}
    → next.aborted ≡ false
    → (settle
        (checked (elim o as (λ _. Option (Unit {0} × Store)) [
          | none ↦ none
          | some v ↦ some (tt, on_task t (with_status v) s)
        ]))
        next).0
      ≡ ok x
    → (settle
        (checked (elim o as (λ _. Option (Unit {0} × Store)) [
          | none ↦ none
          | some v ↦ some (tt, on_task t (with_status v) s)
        ]))
        next).1.aborted
      ≡ false
going none t s next live h = cc
going (some v) t s next live h = live

abbrev is_closed : TaskStatus → Bool
is_closed TaskStatus.opened = false
is_closed closed = true

wrote :
    (status : String) (t : ℕ) (env : Env) (db : Db) {x : Unit {0}}
    → (update_task_status status t env db).0 ≡ ok x
    → Wrote status t db.store (update_task_status status t env db).1.store
unfolding update_task_status write_checked
wrote status t env db h = elim (Bool-cases (db.aborted || env.fault db.tick)) [
  | inl bad ↦ ground arith
  | inr good ↦ rw good (
      labelled t (task_status_of status) db.store (record db { tick = suc db.tick }) (rw good at h))
]

-- A statement that succeeds was not in an aborted transaction, and leaves none.
goes_on :
    (status : String) (t : ℕ) (env : Env) (db : Db) {x : Unit {0}}
    → (update_task_status status t env db).0 ≡ ok x
    → (update_task_status status t env db).1.aborted ≡ false
unfolding update_task_status write_checked
goes_on status t env db h = elim (Bool-cases (db.aborted || env.fault db.tick)) [
  | inl bad ↦ ground arith
  | inr good ↦ rw good (
      going (task_status_of status) t db.store (record db { tick = suc db.tick })
        (ground (arith, good)) (rw good at h))
]

-- The two labels, and the test of the code on the text
label_closed :
    (status : String) (v : TaskStatus)
    → task_status_of status ≡ some v
    → str_eq status "CLOSED" ≡ is_closed v
unfolding task_status_of
label_closed status v h = elim (Bool-cases (str_eq status "OPEN")) [
  | inl is_open ↦
      let e : status ≡ "OPEN" = (eq_iff status "OPEN").0 is_open in
      let o : TaskStatus.opened ≡ v = ground (arith, rw is_open at h) in
      subst (λ w. str_eq status "CLOSED" ≡ is_closed w) o (ap (λ z. str_eq z "CLOSED") e)
  | inr other ↦ elim (Bool-cases (str_eq status "CLOSED")) [
    | inl shut ↦
        let o : closed ≡ v = ground (arith, rw (other, shut) at h) in
        subst (λ w. str_eq status "CLOSED" ≡ is_closed w) o shut
    | inr neither ↦ absurd (ground (arith, rw (other, neither) at h))
  ]
]

abbrev set_rest : String → ℕ → M (Unit {0})
set_rest status t = if str_eq status "CLOSED" then ignore (delete_task_reminders t) else pure tt

reminded :
    (status : String) (v : TaskStatus) (t : ℕ) (env : Env) (db : Db)
    → str_eq status "CLOSED" ≡ is_closed v
    → db.aborted ≡ false
    → ((set_rest status t env db).1.store.tasks ≡ db.store.tasks)
      × Reminded v t env db.store (set_rest status t env db).1.store
unfolding pure ignore delete_task_reminders exec
reminded status TaskStatus.opened t env db test live = rw test (refl, refl)
reminded status closed t env db test live = elim (Bool-cases (env.fault db.tick)) [
  | inl bad ↦ rw (test, live, bad) (refl, inr (db.tick, bad, refl))
  | inr good ↦ rw (test, live, good) (refl, inl refl)
]

Reminded-tables :
    (v : TaskStatus) (t : ℕ) (env : Env) (before mid after : Store)
    → mid.reminders ≡ before.reminders
    → Reminded v t env mid after
    → Reminded v t env before after
Reminded-tables TaskStatus.opened t env before mid after same r = r ∙ same
Reminded-tables closed t env before mid after same (inl gone) = inl (gone ∙ ap (others t) same)
Reminded-tables closed t env before mid after same (inr (n, bad, kept)) = inr (n, bad, kept ∙ same)

status_rest :
    (status : String) (t : ℕ) (env : Env) (db : Db) {x : Unit {0}}
    → ((update_task_status status t >>= λ _. set_rest status t) env db).0 ≡ ok x
    → StatusSet status env t db.store
        ((update_task_status status t >>= λ _. set_rest status t) env db).1.store
status_rest status t env db h =
    let (_, p, s) = bind-ok (update_task_status status t) _ env db h in
    let db1 = (update_task_status status t env db).1 in
    let (v, label, set) = wrote status t env db p in
    let (tasks, reminders) =
      reminded status v t env db1 (label_closed status v label) (goes_on status t env db p) in
    subst (StatusSet status env t db.store) (sym (ap (λ r. r.1.store) s)) (
      v,
      label,
      tasks ∙ ap (λ z. z.tasks) set,
      Reminded-tables v t env db.store db1.store (set_rest status t env db1).1.store
          (ap (λ z. z.reminders) set) reminders,
    )

-- A status that is set successfully is a label of the database's task status, the task it is set
-- on is one of the caller's organization, and that task's row has the status and is otherwise as it
-- was, as are all other tasks. Closing a task deletes its reminders, and keeps them only where a
-- statement is refused, which is no error; opening it keeps them. All other reminders are as they
-- were.
pub set_status-StatusSet :
    (task status caller : String) (env : Env) (db : Db) {x : Unit {0}}
    → (set_status task status caller env db).0 ≡ ok x
    → Effect task caller
        (StatusSet status env)
        env
        db.store
        (set_status task status caller env db).1.store
unfolding set_status
set_status-StatusSet task status caller env db h =
    let o = opened task caller _ env db h in
    let same = o.goes_on in
    let set = status_rest status o.task_id env o.next (ap (λ r. r.0) (sym same) ∙ h) in
    let here =
      subst (StatusSet status env o.task_id o.next.store) (sym (ap (λ r. r.1.store) same)) set in
    (
      o.task_id,
      o.org_id,
      o.task_parsed,
      o.org_parsed,
      o.in_org,
      subst (λ s. StatusSet status env o.task_id s (set_status task status caller env db).1.store)
          o.unchanged here,
    )
