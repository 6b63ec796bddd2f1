-- ===== src/Db/Triples.antt =====
-- Reasoning inside a transaction. A statement whose error is dropped has either taken effect or
-- aborted the transaction, so whatever commits has had the effect of every statement.
use abhiyan.Prelude.{
  ℕ, suc, String, if◌then◌else◌, ◌≡◌, refl, ◌⊎◌, inl, inr, Bool, true, false, Option, none, some,
  ◌||◌, Bool-cases, List, [], ◌∷◌, arith,
}
use abhiyan.Schema.{Store}
use abhiyan.Db.{
  write_checked, checked, returning, Env, Db, Error, Result, ok, err, M, pure, raise, lift,
  continue, ◌>>=◌, settle, attempt, ignore, uuid_printer, select, found, select_one, exec, now,
  parse_uuid, for_each,
}

-- The transaction is aborted, or `Q` holds of the tables.
abbrev pub Holds : (Store → Type 0) → Db → Type 0
Holds Q db = (db.aborted ≡ true) ⊎ Q db.store

-- From `P`, the action reaches `Q`, whatever it returns.
pub record Triple {ℓ} {A : Type ℓ} (P : Store → Type 0) (m : M A) (Q : Store → Type 0)
    : Type ℓ where
  pub at :
      (env : Env) (db : Db)
      → db.in_tx ≡ true
      → Holds P db
      → ((m env db).1.in_tx ≡ true) × Holds Q (m env db).1

-- `P` is left as it is.
abbrev pub Keeps {ℓ} : {A : Type ℓ} → (Store → Type 0) → M A → Type ℓ
Keeps P m = Triple P m P

module _ {ℓ} {A : Type ℓ} {P : Store → Type 0} where
  pub Keeps-pure : (a : A) → Keeps P (pure a)
  unfolding pure
  Keeps-pure a = record { at = λ env db t h. (t, h) }

  pub Keeps-raise : (e : Error) → Keeps P (raise {A = A} e)
  unfolding raise
  Keeps-raise e = record { at = λ env db t h. (t, h) }

  pub Triple-attempt : {Q : Store → Type 0} (m : M A) → Triple P m Q → Triple P (attempt m) Q
  unfolding attempt
  Triple-attempt m q = record { at = λ env db t h. q.at env db t h }

  pub Triple-ignore : {Q : Store → Type 0} (m : M A) → Triple P m Q → Triple P (ignore m) Q
  unfolding ignore
  Triple-ignore m q = record { at = λ env db t h. q.at env db t h }

module _ {ℓ} {A : Type ℓ} {P : Store → Type 0} where
  pub Keeps-select : (f : Env → ℕ → Store → A) → Keeps P (select f)
  unfolding select
  Keeps-select f = record { at = λ env db t h. ground arith }

pub Triple-exec :
    {P Q : Store → Type 0} (f : Env → ℕ → Store → Store)
    → ((env : Env) (t : ℕ) (s : Store) → P s → Q (f env t s))
    → Triple P (exec f) Q
unfolding exec
Triple-exec f q = record { at = λ env db t h. ground (arith, q env db.tick db.store) }

module _ {ℓ} {A : Type ℓ} {P Q : Store → Type 0} where
  pub Triple-returning :
      (f : Env → ℕ → Store → A × Store)
      → ((env : Env) (t : ℕ) (s : Store) → P s → Q (f env t s).1)
      → Triple P (returning f) Q
  unfolding returning
  Triple-returning f q = record { at = λ env db t h. ground (arith, q env db.tick db.store) }

module _ {ℓ} {A : Type ℓ} (P : Store → Type 0) where
  checked-Keeps :
      (o : Option (A × Store)) (db : Db)
      → db.in_tx ≡ true
      → Holds P db
      → ((a : A) (s : Store) → o ≡ some (a, s) → P s)
      → ((settle (checked o) db).1.in_tx ≡ true) × Holds P (settle (checked o) db).1
  checked-Keeps none db t h q = (t, inl t)
  checked-Keeps (some (a, s)) db t h q = (t, inr (q a s refl))

  lift-Keeps :
      (o : Option A) (e : Error) (env : Env) (db : Db)
      → db.in_tx ≡ true
      → Holds P db
      → ((lift o e env db).1.in_tx ≡ true) × Holds P (lift o e env db).1
  unfolding lift
  lift-Keeps none e env db t h = (t, h)
  lift-Keeps (some a) e env db t h = (t, h)

  found-Keeps :
      (s : Store) (o : Option A) (db : Db)
      → db.in_tx ≡ true
      → db.store ≡ s
      → Holds P db
      → ((settle (found s o) db).1.in_tx ≡ true) × Holds P (settle (found s o) db).1
  found-Keeps s none db t e h = (t, h)
  found-Keeps s (some a) db t e h = ground arith

module _ {ℓ} {A : Type ℓ} {P : Store → Type 0} where
  pub Keeps-lift : (o : Option A) (e : Error) → Keeps P (lift o e)
  Keeps-lift o e = record { at = lift-Keeps P o e }

  pub Keeps-select_one : (f : Store → Option A) → Keeps P (select_one f)
  unfolding select_one
  Keeps-select_one f = record {
    at = λ env db t h.
        ground
          (arith, found-Keeps P db.store (f db.store) (record db { tick = suc db.tick }) t refl h);
  }

  -- The rows that the server accepts keep `P`; the others abort the transaction.
  pub Keeps-write_checked :
      (f : Env → ℕ → Store → Option (A × Store))
      → ((env : Env) (t : ℕ) (s : Store)
          → P s
          → (a : A) (s' : Store) → f env t s ≡ some (a, s')
          → P s')
      → Keeps P (write_checked f)
  unfolding write_checked
  Keeps-write_checked f q = record {
    at = λ env db t h. elim (Bool-cases (db.aborted || env.fault db.tick)) [
      | inl bad ↦ rw bad (t, inl t)
      | inr good ↦ elim h [
        | inl dead ↦ ground arith
        | inr live ↦ rw good (
            checked-Keeps P (f env db.tick db.store) (record db { tick = suc db.tick }) t (inr live)
              (q env db.tick db.store live))
      ]
    ];
  }

pub Keeps-uuid_printer : {P : Store → Type 0} → Keeps P uuid_printer
unfolding uuid_printer
Keeps-uuid_printer = record { at = λ env db t h. (t, h) }

pub Keeps-now : {P : Store → Type 0} → Keeps P now
unfolding now
Keeps-now = record { at = λ env db t h. (t, h) }

pub Keeps-parse_uuid : {P : Store → Type 0} (s : String) → Keeps P (parse_uuid s)
unfolding parse_uuid
Keeps-parse_uuid {P} s = record {
  at = λ env db. lift-Keeps P (env.parse_uuid s) Error.invalid_uuid env db;
}

module _ {ℓ κ} {A : Type ℓ} {B : Type κ} {P : Store → Type 0} where
  Keeps-continue :
      (r : Result A) (k : A → M B) (env : Env) (db : Db)
      → ((a : A) → Keeps P (k a))
      → db.in_tx ≡ true
      → Holds P db
      → ((continue r k env db).1.in_tx ≡ true) × Holds P (continue r k env db).1
  Keeps-continue (ok a) k env db q t h = (q a).at env db t h
  Keeps-continue (err e) k env db q t h = (t, h)

  pub Keeps-bind :
      (m : M A) (k : A → M B) → Keeps P m → ((a : A) → Keeps P (k a)) → Keeps P (m >>= k)
  unfolding ◌>>=◌
  Keeps-bind m k qm qk = record {
    at = λ env db t h.
        let (t', h') = qm.at env db t h in Keeps-continue (m env db).0 k env (m env db).1 qk t' h';
  }

pub Keeps-for_each {ℓ} :
    {A : Type ℓ} {P : Store → Type 0} (xs : List A) (body : A → M (Unit {0}))
    → ((a : A) → Keeps P (body a))
    → Keeps P (for_each xs body)
unfolding for_each
Keeps-for_each [] body q = Keeps-pure tt
Keeps-for_each (x ∷ xs) body q =
    Keeps-bind (body x) (λ _. for_each xs body) (q x) (λ _. Keeps-for_each xs body q)

pub Keeps-if {ℓ} :
    {A : Type ℓ} {P : Store → Type 0} (b : Bool) (m n : M A)
    → Keeps P m
    → Keeps P n
    → Keeps P (if b then m else n)
Keeps-if true m n qm qn = qm
Keeps-if false m n qm qn = qn

pub ruleset keeps_rules = (
  Keeps-pure, Keeps-raise, Keeps-lift, Keeps-select, Keeps-select_one, Triple-attempt,
  Triple-ignore, Keeps-uuid_printer, Keeps-now, Keeps-parse_uuid, Keeps-bind, Keeps-for_each,
  Keeps-if, Triple-exec, Triple-returning, Keeps-write_checked,
)
