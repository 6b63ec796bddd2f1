-- ===== src/Tasks/Opening.antt =====
-- How every operation on a task begins: both ids are parsed, and the task's organization is read
-- and compared with the caller's. Nothing is written on the way.
use abhiyan.Prelude.{
  ℕ, String, Bool, true, false, Option, none, some, ◌≡◌, suc, refl, sym, subst, ◌∙◌, ap, ◌==◌,
  ==_iff, ◌||◌, Bool-cases, inl, inr, arith,
}
use abhiyan.Schema.{Store}
use abhiyan.Db.{
  select, Env, Db, M, ok, ◌>>=◌, ◌>>◌, parse_uuid, lift, Error, invalid_uuid, wrong_org, raise,
  pure, select_one, settle, found,
}
use mathlib.Core.Path.{subst₂}
use abhiyan.Db.{transaction}
use abhiyan.Db.Committed.{Ensures, transaction_committed}
use abhiyan.Db.Rules.{
  Total, Quiet, bind-ok, Quiet-if, Quiet-bind, Quiet-select_one, Quiet-pure, Quiet-raise,
  Quiet-parse_uuid, Atomic, Atomic-bind,
}
use abhiyan.Sql.Tasks.{get_task_org_id, org_of_task}
use abhiyan.Tasks.Guards.{assert_task_in_org, require}

lift-ok :
    (o : Option ℕ) (e : Error) (env : Env) (db : Db) {t : ℕ}
    → (lift o e env db).0 ≡ ok t
    → (o ≡ some t) × ((lift o e env db).1 ≡ db)
unfolding lift
lift-ok none e env db h = cc
lift-ok (some t) e env db h = (cc, refl)

pub parse-ok :
    (text : String) (env : Env) (db : Db) {t : ℕ}
    → (parse_uuid text env db).0 ≡ ok t
    → (env.parse_uuid text ≡ some t) × ((parse_uuid text env db).1 ≡ db)
unfolding parse_uuid
parse-ok text env db h = lift-ok (env.parse_uuid text) invalid_uuid env db h

pub Quiet-require : (b : Bool) (e : Error) → Quiet (require b e)
Quiet-require b e = Quiet-if b _ _ (Quiet-pure tt) (Quiet-raise e)

pub Quiet-assert : (t o : ℕ) → Quiet (assert_task_in_org t o)
unfolding assert_task_in_org get_task_org_id
Quiet-assert t o = Quiet-bind _ _ (Quiet-select_one _) (λ org. Quiet-require (org == o) _)

found-ok :
    {A : Type 0} (s : Store) (o : Option A) (next : Db) {a : A}
    → (settle (found s o) next).0 ≡ ok a
    → o ≡ some a
found-ok s none next h = cc
found-ok s (some b) next h = cc

pub select_one-ok :
    {A : Type 0} (f : Store → Option A) (env : Env) (db : Db) {a : A}
    → (select_one f env db).0 ≡ ok a
    → f db.store ≡ some a
unfolding select_one
select_one-ok f env db h = elim (Bool-cases (db.aborted || env.fault db.tick)) [
  | inl bad ↦ ground arith
  | inr good ↦ found-ok db.store (f db.store) (record db { tick = suc db.tick }) (rw good at h)
]

pub select-ok :
    (f : Env → ℕ → Store → Bool) (env : Env) (db : Db) (b : Bool)
    → (select f env db).0 ≡ ok b
    → b ≡ f env db.tick db.store
unfolding select
select-ok f env db b h = elim (Bool-cases (db.aborted || env.fault db.tick)) [
  | inl bad ↦ ground arith
  | inr good ↦ ground arith
]

pub require-ok :
    (b : Bool) (e : Error) (env : Env) (db : Db) {x : Unit {0}}
    → (require b e env db).0 ≡ ok x
    → b ≡ true
unfolding pure raise
require-ok true e env db h = refl
require-ok false e env db h = cc

-- The check passes only in the task's own organization.
pub assert-ok :
    (t o : ℕ) (env : Env) (db : Db) {x : Unit {0}}
    → (assert_task_in_org t o env db).0 ≡ ok x
    → org_of_task t db.store ≡ some o
unfolding assert_task_in_org get_task_org_id
assert-ok t o env db h =
    let (org, read, same) = bind-ok (select_one (org_of_task t)) _ env db h in
    let own = select_one-ok (org_of_task t) env db read in
    let passed =
      require-ok (org == o) wrong_org env (select_one (org_of_task t) env db).1
        (ap (λ r. r.0) (sym same) ∙ h) in
    own ∙ ap some ((==_iff org o).0 passed)

-- What an operation that returned has been through, and where it goes on.
pub record Opened {A : Type 0} (task caller : String) (m : M A) (rest : ℕ → ℕ → M A) (env : Env)
    (db : Db) : Type 0 where
  pub task_id : ℕ
  pub org_id : ℕ
  pub next : Db
  pub task_parsed : env.parse_uuid task ≡ some task_id
  pub org_parsed : env.parse_uuid caller ≡ some org_id
  pub in_org : org_of_task task_id db.store ≡ some org_id
  pub unchanged : next.store ≡ db.store
  pub goes_on : m env db ≡ rest task_id org_id env next

module _ {A : Type 0} (task caller : String) (rest : ℕ → ℕ → M A) where
  abbrev pub opening : M A
  opening = parse_uuid task >>= λ t. parse_uuid caller >>= λ o. assert_task_in_org t o >> rest t o

  pub opened :
      (env : Env) (db : Db) {x : A}
      → (opening env db).0 ≡ ok x
      → Opened task caller opening rest env db
  opened env db h =
      let (t, pt, st) = bind-ok (parse_uuid task) _ env db h in
      let (et, dt) = parse-ok task env db pt in
      let h1 = ap (λ r. r.0) (sym st) ∙ h in
      let (o, po, so) = bind-ok (parse_uuid caller) _ env (parse_uuid task env db).1 h1 in
      let (eo, do') = parse-ok caller env (parse_uuid task env db).1 po in
      let h2 = ap (λ r. r.0) (sym so) ∙ h1 in
      let db2 : Db = (parse_uuid caller env (parse_uuid task env db).1).1 in
      let (u, pu, su) = bind-ok (assert_task_in_org t o) _ env db2 h2 in
      record {
        task_id = t;
        org_id = o;
        next = (assert_task_in_org t o env db2).1;
        task_parsed = et;
        org_parsed = eo;
        in_org = ap (λ d. org_of_task t d.store) (sym (do' ∙ dt)) ∙ assert-ok t o env db2 pu;
        unchanged = (Quiet-assert t o).at env db2 ∙ ap (λ d. d.store) (do' ∙ dt);
        goes_on = st ∙ so ∙ su;
      }

  pub Atomic-opening : ((t o : ℕ) → Atomic (rest t o)) → Atomic opening
  Atomic-opening r = Atomic-bind _ _ (Quiet-parse_uuid task) (λ t.
      Atomic-bind _ _ (Quiet-parse_uuid caller)
        (λ o. Atomic-bind _ _ (Quiet-assert t o) (λ _. r t o)))

-- An operation whose transaction committed, and whose messages were sent after it, has left the
-- tables as the transaction's body did.
pub committed_then :
    {A : Type 0} (Q : Store → Type 0) (m : M A) (k : A → M (Unit {0})) (env : Env) (db : Db)
    {x : Unit {0}}
    → Ensures (λ s. s ≡ db.store) m (λ _. Q)
    → ((a : A) → Total (k a))
    → ((transaction m >>= k) env db).0 ≡ ok x
    → Q ((transaction m >>= k) env db).1.store
committed_then Q m k env db e t h =
    let (a, done, same) = bind-ok (transaction m) k env db h in
    let held = transaction_committed (λ _. Q) m env db e refl done in
    let (_, _, quiet) = (t a).at env (transaction m env db).1 in
    subst Q (sym (ap (λ r. r.1.store) same ∙ quiet)) held

-- What an operation did to the task that it names: the ids were good, the task is one of the
-- caller's organization, and `Q` ties the tables before to those after.
abbrev pub Effect : String → String → (ℕ → Store → Store → Type 0) → Env → Store → Store → Type 0
Effect task caller Q env before after =
    (t : ℕ) × (o : ℕ) × (env.parse_uuid task ≡ some t)
    × (env.parse_uuid caller ≡ some o)
    × (org_of_task t before ≡ some o)
    × Q t before after

-- The shape of the operations: the checks, one transaction, and messages that cannot fail.
pub opened_committed :
    {A : Type 0} (task caller : String) (Q : ℕ → Store → Store → Type 0) (body : ℕ → ℕ → M A)
    (after : A → M (Unit {0}))
    → ((t o : ℕ) (s0 : Store) → Ensures (λ s. s ≡ s0) (body t o) (λ _. Q t s0))
    → ((a : A) → Total (after a))
    → (env : Env) (db : Db) {x : Unit {0}}
    → (opening task caller (λ t o. transaction (body t o) >>= after) env db).0 ≡ ok x
    → Effect task caller Q env db.store
        (opening task caller (λ t o. transaction (body t o) >>= after) env db).1.store
opened_committed task caller Q body after e total env db h =
    let o = opened task caller (λ t o. transaction (body t o) >>= after) env db h in
    let t = o.task_id in
    let same = o.goes_on in
    let held =
      committed_then (Q t o.next.store) (body t o.org_id) after env o.next
        (e t o.org_id o.next.store) total (ap (λ r. r.0) (sym same) ∙ h) in
    (
      t,
      o.org_id,
      o.task_parsed,
      o.org_parsed,
      o.in_org,
      subst₂ (Q t) o.unchanged (ap (λ r. r.1.store) (sym same)) held,
    )

-- The same, of a task that is known
pub opened_at :
    {A : Type 0} (task caller : String) (body : ℕ → ℕ → M A) (after : A → M (Unit {0})) (env : Env)
    (db : Db) (t : ℕ) (Q : Store → Type 0) {x : Unit {0}}
    → env.parse_uuid task ≡ some t
    → ((o : ℕ) → Ensures (λ s. s ≡ db.store) (body t o) (λ _. Q))
    → ((a : A) → Total (after a))
    → (opening task caller (λ t o. transaction (body t o) >>= after) env db).0 ≡ ok x
    → Q (opening task caller (λ t o. transaction (body t o) >>= after) env db).1.store
opened_at task caller body after env db t Q parsed e total h =
    let o = opened task caller (λ t o. transaction (body t o) >>= after) env db h in
    let same_task : t ≡ o.task_id = let p = o.task_parsed in cc in
    let same = o.goes_on in
    let ensured =
      subst₂ (λ i s. Ensures (λ z. z ≡ s) (body i o.org_id) (λ _. Q)) same_task (sym o.unchanged)
        (e o.org_id) in
    let held =
      committed_then Q (body o.task_id o.org_id) after env o.next ensured total
        (ap (λ r. r.0) (sym same) ∙ h) in
    subst Q (ap (λ r. r.1.store) (sym same)) held
