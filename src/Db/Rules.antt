-- ===== src/Db/Rules.antt =====
-- Reasoning about actions outside a transaction: those that leave the tables alone, those that
-- never fail, and those that change nothing when they fail.
use abhiyan.Prelude.{
  suc, String, if◌then◌else◌, ◌≡◌, refl, ◌∙◌, Bool, true, false, Option, none, some, List, [], ◌∷◌,
  arith,
}
use abhiyan.Schema.{Store}
use abhiyan.Db.{
  Env, Db, Error, Result, ok, err, M, pure, raise, lift, continue, ◌>>=◌, settle, forget, attempt,
  outcome, ignore, uuid_printer, transaction, select, found, select_one, enqueue, now, parse_uuid,
  for_each, Job,
}

-- `m` leaves the tables as they are, whatever it returns.
pub record Quiet {ℓ} {A : Type ℓ} (m : M A) : Type ℓ where
  pub at : (env : Env) (db : Db) → (m env db).1.store ≡ db.store

-- `m` returns no error, and leaves the tables as they are.
pub record Total {ℓ} {A : Type ℓ} (m : M A) : Type ℓ where
  pub at : (env : Env) (db : Db) → (a : A) × (m env db).0 ≡ ok a × (m env db).1.store ≡ db.store

-- An error means that the tables are as before.
pub record Atomic {ℓ} {A : Type ℓ} (m : M A) : Type ℓ where
  pub at : (env : Env) (db : Db) {e : Error} → (m env db).0 ≡ err e → (m env db).1.store ≡ db.store

module _ {ℓ} {A : Type ℓ} where
  pub Quiet-pure : (a : A) → Quiet (pure a)
  unfolding pure
  Quiet-pure a = record { at = λ env db. refl }

  pub Quiet-raise : (e : Error) → Quiet (raise {A = A} e)
  unfolding raise
  Quiet-raise e = record { at = λ env db. refl }

  lift-store :
      (o : Option A) (e : Error) (env : Env) (db : Db) → (lift o e env db).1.store ≡ db.store
  unfolding lift
  lift-store none e env db = refl
  lift-store (some a) e env db = refl

  pub Quiet-lift : (o : Option A) (e : Error) → Quiet (lift o e)
  Quiet-lift o e = record { at = lift-store o e }

  pub Quiet-select : (f : Env → _ → Store → A) → Quiet (select f)
  unfolding select
  Quiet-select f = record { at = λ env db. ground arith }

  found-store :
      (s : Store) (o : Option A) (db : Db) → db.store ≡ s → (settle (found s o) db).1.store ≡ s
  found-store s none db h = h
  found-store s (some a) db h = refl

  pub Quiet-select_one : (f : Store → Option A) → Quiet (select_one f)
  unfolding select_one
  Quiet-select_one f = record {
    at = λ env db.
        ground (arith, found-store db.store (f db.store) (record db { tick = suc db.tick }) refl);
  }

  pub Quiet-attempt : (m : M A) → Quiet m → Quiet (attempt m)
  unfolding attempt
  Quiet-attempt m q = record { at = λ env db. q.at env db }

  pub Quiet-outcome : (m : M A) → Quiet m → Quiet (outcome m)
  unfolding outcome
  Quiet-outcome m q = record { at = λ env db. q.at env db }

  forget-ok : (r : Result A) → (a : Option A) × (forget r ≡ ok a)
  forget-ok (ok a) = (some a, refl)
  forget-ok (err e) = (none, refl)

  pub Total-attempt : (m : M A) → Quiet m → Total (attempt m)
  unfolding attempt
  Total-attempt m q = record {
    at = λ env db. let (a, h) = forget-ok (m env db).0 in (a, h, q.at env db);
  }

  pub Quiet-ignore : (m : M A) → Quiet m → Quiet (ignore m)
  unfolding ignore
  Quiet-ignore m q = record { at = λ env db. q.at env db }

  pub Total-ignore : (m : M A) → Quiet m → Total (ignore m)
  unfolding ignore
  Total-ignore m q = record { at = λ env db. (tt, refl, q.at env db) }

  pub Total-pure : (a : A) → Total (pure a)
  unfolding pure
  Total-pure a = record { at = λ env db. (a, refl, refl) }

  pub Atomic-Quiet : {m : M A} → Quiet m → Atomic m
  Atomic-Quiet q = record { at = λ env db h. q.at env db }

  pub Atomic-transaction : (m : M A) → Atomic (transaction m)
  unfolding transaction
  Atomic-transaction m = record { at = λ env db h. ground arith }

pub Quiet-uuid_printer : Quiet uuid_printer
unfolding uuid_printer
Quiet-uuid_printer = record { at = λ env db. refl }

pub Quiet-now : Quiet now
unfolding now
Quiet-now = record { at = λ env db. refl }

pub Quiet-parse_uuid : (s : String) → Quiet (parse_uuid s)
unfolding parse_uuid
Quiet-parse_uuid s = record {
  at = λ env db. lift-store (env.parse_uuid s) Error.invalid_uuid env db;
}

pub Quiet-enqueue : (j : Job) → Quiet (enqueue j)
unfolding enqueue
Quiet-enqueue j = record { at = λ env db. refl }

module _ {ℓ κ} {A : Type ℓ} {B : Type κ} where
  Quiet-continue :
      (r : Result A) (k : A → M B) (env : Env) (db : Db)
      → ((a : A) → Quiet (k a))
      → (continue r k env db).1.store ≡ db.store
  Quiet-continue (ok a) k env db q = (q a).at env db
  Quiet-continue (err e) k env db q = refl

  pub Quiet-bind : (m : M A) (k : A → M B) → Quiet m → ((a : A) → Quiet (k a)) → Quiet (m >>= k)
  unfolding ◌>>=◌
  Quiet-bind m k qm qk = record {
    at = λ env db. Quiet-continue (m env db).0 k env (m env db).1 qk ∙ qm.at env db;
  }

  Atomic-continue :
      (r : Result A) (k : A → M B) (env : Env) (db : Db) {e : Error}
      → ((a : A) → Atomic (k a))
      → (continue r k env db).0 ≡ err e
      → (continue r k env db).1.store ≡ db.store
  Atomic-continue (ok a) k env db q h = (q a).at env db h
  Atomic-continue (err e) k env db q h = refl

  -- Checks first, and then what is atomic.
  pub Atomic-bind : (m : M A) (k : A → M B) → Quiet m → ((a : A) → Atomic (k a)) → Atomic (m >>= k)
  unfolding ◌>>=◌
  Atomic-bind m k qm ak = record {
    at = λ env db h. Atomic-continue (m env db).0 k env (m env db).1 ak h ∙ qm.at env db;
  }

  Total-continue :
      (r : Result A) (k : A → M B) (env : Env) (db : Db) {e : Error}
      → ((a : A) → Total (k a))
      → (continue r k env db).0 ≡ err e
      → (r ≡ err e) × ((continue r k env db).1.store ≡ db.store)
  Total-continue (ok a) k env db t h = let (b, e, _) = (t a).at env db in cc
  Total-continue (err e) k env db t h = (cc, refl)

  -- What is atomic, and then what cannot fail.
  pub Atomic-then : (m : M A) (k : A → M B) → Atomic m → ((a : A) → Total (k a)) → Atomic (m >>= k)
  unfolding ◌>>=◌
  Atomic-then m k am tk = record {
    at = λ env db h.
        let (f, s) = Total-continue (m env db).0 k env (m env db).1 tk h in s ∙ am.at env db f;
  }

  Total-next :
      (r : Result A) (k : A → M B) (env : Env) (db : Db) {a : A}
      → r ≡ ok a
      → ((a : A) → Total (k a))
      → (b : B) × ((continue r k env db).0 ≡ ok b) × ((continue r k env db).1.store ≡ db.store)
  Total-next (ok a) k env db h t = (t a).at env db
  Total-next (err e) k env db h t = cc

  pub Total-bind : (m : M A) (k : A → M B) → Total m → ((a : A) → Total (k a)) → Total (m >>= k)
  unfolding ◌>>=◌
  Total-bind m k tm tk = record {
    at = λ env db.
        let (a, h, s) = tm.at env db in
        let (b, h', s') = Total-next (m env db).0 k env (m env db).1 h tk in (b, h', s' ∙ s);
  }

pub Quiet-for_each {ℓ} :
    {A : Type ℓ} (xs : List A) (body : A → M (Unit {0}))
    → ((a : A) → Quiet (body a))
    → Quiet (for_each xs body)
unfolding for_each
Quiet-for_each [] body q = Quiet-pure tt
Quiet-for_each (x ∷ xs) body q =
    Quiet-bind (body x) (λ _. for_each xs body) (q x) (λ _. Quiet-for_each xs body q)

pub Total-for_each {ℓ} :
    {A : Type ℓ} (xs : List A) (body : A → M (Unit {0}))
    → ((a : A) → Total (body a))
    → Total (for_each xs body)
unfolding for_each
Total-for_each [] body q = Total-pure tt
Total-for_each (x ∷ xs) body q =
    Total-bind (body x) (λ _. for_each xs body) (q x) (λ _. Total-for_each xs body q)

pub Quiet-if {ℓ} :
    {A : Type ℓ} (b : Bool) (m n : M A) → Quiet m → Quiet n → Quiet (if b then m else n)
Quiet-if true m n qm qn = qm
Quiet-if false m n qm qn = qn

pub Total-if {ℓ} :
    {A : Type ℓ} (b : Bool) (m n : M A) → Total m → Total n → Total (if b then m else n)
Total-if true m n qm qn = qm
Total-if false m n qm qn = qn

pub ruleset quiet_rules = (
  Quiet-pure, Quiet-raise, Quiet-lift, Quiet-select, Quiet-select_one, Quiet-attempt, Quiet-ignore,
  Quiet-outcome, Quiet-uuid_printer, Quiet-now, Quiet-parse_uuid, Quiet-enqueue, Quiet-bind,
  Quiet-for_each, Quiet-if,
)

module _ {ℓ κ} {A : Type ℓ} {B : Type κ} where
  continue-ok :
      (r : Result A) (k : A → M B) (env : Env) (db : Db) {b : B}
      → (continue r k env db).0 ≡ ok b
      → (a : A) × (r ≡ ok a) × (continue r k env db ≡ k a env db)
  continue-ok (ok a) k env db h = (a, refl, refl)
  continue-ok (err e) k env db h = cc

  -- A chain that returned has run its first action and gone on with the value.
  pub bind-ok :
      (m : M A) (k : A → M B) (env : Env) (db : Db) {b : B}
      → ((m >>= k) env db).0 ≡ ok b
      → (a : A) × ((m env db).0 ≡ ok a) × ((m >>= k) env db ≡ k a env (m env db).1)
  unfolding ◌>>=◌
  bind-ok m k env db h = continue-ok (m env db).0 k env (m env db).1 h
