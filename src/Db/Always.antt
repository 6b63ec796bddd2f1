-- ===== src/Db/Always.antt =====
-- Statements about the tables that an action keeps, with a transaction open or not, whatever fails.
use abhiyan.Prelude.{
  ℕ, sym, subst, ◌||◌, Bool-cases, inl, inr, suc, if◌then◌else◌, ◌≡◌, refl, Bool, true, false,
  Option, none, some, arith,
}
use abhiyan.Schema.{Store}
use abhiyan.Db.{
  Env, Db, Result, ok, err, M, continue, ◌>>=◌, settle, attempt, outcome, ignore, finish,
  transaction, exec, write_checked, checked,
}
use abhiyan.Db.Rules.{Quiet, Total}
use abhiyan.Db.Triples.{Holds, Keeps}

-- `P` holds of the tables before and after, with a transaction open or not.
pub record Always {ℓ} {A : Type ℓ} (P : Store → Type 0) (m : M A) : Type ℓ where
  pub at : (env : Env) (db : Db) → P db.store → P (m env db).1.store

module _ {ℓ} {A : Type ℓ} {P : Store → Type 0} where
  pub Always-Quiet : {m : M A} → Quiet m → Always P m
  Always-Quiet q = record { at = λ env db h. rw (q.at env db) h }

  pub Always-ignore : (m : M A) → Always P m → Always P (ignore m)
  unfolding ignore
  Always-ignore m q = record { at = λ env db h. q.at env db h }

  pub Always-outcome : (m : M A) → Always P m → Always P (outcome m)
  unfolding outcome
  Always-outcome m q = record { at = λ env db h. q.at env db h }

  pub Always-attempt : (m : M A) → Always P m → Always P (attempt m)
  unfolding attempt
  Always-attempt m q = record { at = λ env db h. q.at env db h }

module _ {ℓ κ} {A : Type ℓ} {B : Type κ} {P : Store → Type 0} where
  Always-continue :
      (r : Result A) (k : A → M B) (env : Env) (db : Db)
      → ((a : A) → Always P (k a))
      → P db.store
      → P (continue r k env db).1.store
  Always-continue (ok a) k env db q h = (q a).at env db h
  Always-continue (err e) k env db q h = h

  pub Always-bind :
      (m : M A) (k : A → M B) → Always P m → ((a : A) → Always P (k a)) → Always P (m >>= k)
  unfolding ◌>>=◌
  Always-bind m k qm qk = record {
    at = λ env db h. Always-continue (m env db).0 k env (m env db).1 qk (qm.at env db h);
  }

pub Always-exec :
    {P : Store → Type 0} (f : Env → ℕ → Store → Store)
    → ((env : Env) (t : ℕ) (s : Store) → P s → P (f env t s))
    → Always P (exec f)
unfolding exec
Always-exec f q = record { at = λ env db h. ground (arith, q env db.tick db.store) }

module _ {ℓ} {A : Type ℓ} where
  checked-Always :
      (P : Store → Type 0) (o : Option (A × Store)) (db : Db)
      → P db.store
      → ((a : A) (s : Store) → o ≡ some (a, s) → P s)
      → P (settle (checked o) db).1.store
  checked-Always P none db h q = h
  checked-Always P (some (a, s)) db h q = q a s refl

  pub Always-write_checked :
      {P : Store → Type 0} (f : Env → ℕ → Store → Option (A × Store))
      → ((env : Env) (t : ℕ) (s : Store)
          → P s
          → (a : A) (s' : Store) → f env t s ≡ some (a, s')
          → P s')
      → Always P (write_checked f)
  unfolding write_checked
  Always-write_checked {P} f q = record {
    at = λ env db h. elim (Bool-cases (db.aborted || env.fault db.tick)) [
      | inl bad ↦ rw bad h
      | inr good ↦ rw good (
          checked-Always P (f env db.tick db.store) (record db { tick = suc db.tick }) h
            (q env db.tick db.store h))
    ];
  }

  pub Always-if :
      {P : Store → Type 0} (b : Bool) (m n : M A)
      → Always P m
      → Always P n
      → Always P (if b then m else n)
  Always-if true m n qm qn = qm
  Always-if false m n qm qn = qn

  pub Always-Total : {P : Store → Type 0} (m : M A) → Total m → Always P m
  Always-Total {P} m q = record {
    at = λ env db h. let (a, returned, same) = q.at env db in subst P (sym same) h;
  }

module _ {ℓ} {A : Type ℓ} (P : Store → Type 0) where
  finish-Always :
      (before : Store) (r : Result A) (env : Env) (db : Db)
      → P before
      → Holds P db
      → P (finish before r env db).1.store
  finish-Always before (err e) env db p h = p
  finish-Always before (ok a) env db p h = elim (Bool-cases (db.aborted || env.fault db.tick)) [
    | inl bad ↦ rw bad p
    | inr good ↦ elim h [ inl dead ↦ ground arith | inr live ↦ rw good live ]
  ]

module _ {ℓ} {A : Type ℓ} {P : Store → Type 0} where
  -- What every statement of a transaction keeps, the transaction keeps, committed or not.
  pub Always-transaction : (m : M A) → Keeps P m → Always P (transaction m)
  unfolding transaction
  Always-transaction m k = record {
    at = λ env db p. elim (Bool-cases (env.fault db.tick)) [
      | inl bad ↦ rw bad p
      | inr good ↦
          let begun : Db = record db { tick = suc db.tick; in_tx = true; aborted = false } in
          rw good (
            finish-Always P db.store (m env begun).0 env (m env begun).1 p
              (k.at env begun refl (inr p)).1)
    ];
  }
