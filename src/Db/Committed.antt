-- ===== src/Db/Committed.antt =====
-- What a transaction that commits ensures: its body's postcondition holds of the tables.
use abhiyan.Prelude.{ℕ, suc, ◌≡◌, refl, subst, inl, inr, true, false, some, ◌||◌, Bool-cases, arith}
use abhiyan.Schema.{Store}
use abhiyan.Db.{
  returning, Env, Db, Result, ok, err, M, pure, continue, ◌>>=◌, attempt, finish, transaction,
  select,
}
use abhiyan.Db.Triples.{Holds, Triple}

abbrev pub Post {ℓ} : {A : Type ℓ} → (A → Store → Type 0) → Result A → Db → Type 0
Post Q (ok a) db = (db.in_tx ≡ true) × Holds (Q a) db
Post Q (err e) db = Unit

-- From `P`, what the action returns with no error satisfies `Q`.
pub record Ensures {ℓ} {A : Type ℓ} (P : Store → Type 0) (m : M A) (Q : A → Store → Type 0)
    : Type ℓ where
  pub at : (env : Env) (db : Db) → db.in_tx ≡ true → Holds P db → Post Q (m env db).0 (m env db).1

-- The same, of one environment
pub record Under {ℓ} {A : Type ℓ} (env : Env) (P : Store → Type 0) (m : M A)
    (Q : A → Store → Type 0) : Type ℓ where
  pub at : (db : Db) → db.in_tx ≡ true → Holds P db → Post Q (m env db).0 (m env db).1

pub Under-Ensures {ℓ} :
    {A : Type ℓ} {env : Env} {P : Store → Type 0} {Q : A → Store → Type 0} (m : M A)
    → Ensures P m Q
    → Under env P m Q
Under-Ensures {env} m q = record { at = λ db t h. q.at env db t h }

Post-of {ℓ} :
    {A : Type ℓ} (Q : Store → Type 0) (r : Result A) (db : Db)
    → db.in_tx ≡ true
    → Holds Q db
    → Post (λ _. Q) r db
Post-of Q (ok a) db t h = (t, h)
Post-of Q (err e) db t h = tt

module _ {ℓ} {A : Type ℓ} {P : Store → Type 0} where
  pub Ensures-Triple : {Q : Store → Type 0} (m : M A) → Triple P m Q → Ensures P m (λ _. Q)
  Ensures-Triple {Q} m q = record {
    at = λ env db t h. let (t', h') = q.at env db t h in Post-of Q (m env db).0 (m env db).1 t' h';
  }

  pub Ensures-pure :
      {Q : A → Store → Type 0} (a : A) → ((s : Store) → P s → Q a s) → Ensures P (pure a) Q
  unfolding pure
  Ensures-pure a q = record { at = λ env db t h. ground (arith, q db.store) }

module _ {A : Type 0} {P : Store → Type 0} where
  -- An insert returns the row that it has written.
  pub Ensures-returning :
      {Q : A → Store → Type 0} (f : Env → ℕ → Store → A × Store)
      → ((env : Env) (t : ℕ) (s : Store) → P s → Q (f env t s).0 (f env t s).1)
      → Ensures P (returning f) Q
  unfolding returning
  Ensures-returning f q = record {
    at = λ env db t h. elim h [
      | inl dead ↦ ground arith
      | inr live ↦ elim (Bool-cases (db.aborted || env.fault db.tick)) [
        | inl bad ↦ rw bad tt
        | inr good ↦ rw good (t, inr (q env db.tick db.store live))
      ]
    ];
  }

  -- A read whose error is dropped returns the rows, unless the transaction is aborted.
  pub Ensures-attempt-select :
      (f : Env → ℕ → Store → A)
      → Ensures P
          (attempt (select f))
          (λ o s. P s × ((env : Env) × (t : ℕ) × (o ≡ some (f env t s))))
  unfolding attempt select
  Ensures-attempt-select f = record {
    at = λ env db t h. elim h [
      | inl dead ↦ ground arith
      | inr live ↦ elim (Bool-cases (db.aborted || env.fault db.tick)) [
        | inl bad ↦ rw bad (t, inl t)
        | inr good ↦ rw good (t, inr (live, (env, db.tick, refl)))
      ]
    ];
  }

module _ {ℓ κ} {A : Type ℓ} {B : Type κ} where
  Ensures-continue :
      (Q : A → Store → Type 0) (R : B → Store → Type 0) (r : Result A) (k : A → M B) (env : Env)
      (db : Db)
      → ((a : A) → Ensures (Q a) (k a) R)
      → Post Q r db
      → Post R (continue r k env db).0 (continue r k env db).1
  Ensures-continue Q R (ok a) k env db q p = (q a).at env db p.0 p.1
  Ensures-continue Q R (err e) k env db q p = tt

  pub Ensures-bind :
      {P : Store → Type 0} {Q : A → Store → Type 0} {R : B → Store → Type 0} (m : M A) (k : A → M B)
      → Ensures P m Q
      → ((a : A) → Ensures (Q a) (k a) R)
      → Ensures P (m >>= k) R
  unfolding ◌>>=◌
  Ensures-bind {Q} {R} m k qm qk = record {
    at = λ env db t h. Ensures-continue Q R (m env db).0 k env (m env db).1 qk (qm.at env db t h);
  }

  pub Under-bind :
      {env : Env} {P : Store → Type 0} {Q : A → Store → Type 0} {R : B → Store → Type 0} (m : M A)
      (k : A → M B)
      → Under env P m Q
      → ((a : A) → Under env (Q a) (k a) R)
      → Under env P (m >>= k) R
  unfolding ◌>>=◌
  Under-bind {env} {Q} {R} m k qm qk = record {
    at = λ db t h. on_result (m env db).0 (m env db).1 (qm.at db t h);
  }
    where
      on_result :
          (r : Result A) (db : Db)
          → Post Q r db
          → Post R (continue r k env db).0 (continue r k env db).1
      on_result (ok a) db p = (qk a).at db p.0 p.1
      on_result (err e) db p = tt

  -- A step whose value plays no part in what it reaches
  pub Ensures-step :
      {P Q : Store → Type 0} {R : B → Store → Type 0} (m : M A) (k : A → M B)
      → Triple P m Q
      → ((a : A) → Ensures Q (k a) R)
      → Ensures P (m >>= k) R
  Ensures-step {Q} m k t = Ensures-bind {Q = λ _. Q} m k (Ensures-Triple m t)

module _ {ℓ} {A : Type ℓ} (Q : A → Store → Type 0) where
  ok_value : {a b : A} (db : Db) → Q b db.store → ok b ≡ ok a → Q a db.store
  ok_value {a} {b} db q h = let e : b ≡ a = cc in subst (λ x. Q x db.store) e q

  pub finish-ok :
      (before : Store) (r : Result A) (env : Env) (db : Db) {a : A}
      → Post Q r db
      → (finish before r env db).0 ≡ ok a
      → Q a (finish before r env db).1.store
  finish-ok before (err e) env db p h = cc
  finish-ok before (ok b) env db {a} p h = elim (Bool-cases (db.aborted || env.fault db.tick)) [
    | inl bad ↦ ground arith
    | inr good ↦ elim p.1 [
      | inl dead ↦ ground arith
      | inr live ↦ rw good (ok_value db live (rw good at h))
    ]
  ]

  pub committed_under :
      {P : Store → Type 0} (m : M A) (env : Env) (db : Db) {a : A}
      → Under env P m Q
      → P db.store
      → (transaction m env db).0 ≡ ok a
      → Q a (transaction m env db).1.store
  unfolding transaction
  committed_under m env db h p e = elim (Bool-cases (env.fault db.tick)) [
    | inl bad ↦ ground arith
    | inr good ↦
        let begun : Db = record db { tick = suc db.tick; in_tx = true; aborted = false } in
        rw good (
          finish-ok db.store (m env begun).0 env (m env begun).1 (h.at begun refl (inr p))
            (rw good at e))
  ]

  -- What is committed satisfies what the body ensures.
  pub transaction_committed :
      {P : Store → Type 0} (m : M A) (env : Env) (db : Db) {a : A}
      → Ensures P m Q
      → P db.store
      → (transaction m env db).0 ≡ ok a
      → Q a (transaction m env db).1.store
  transaction_committed m env db h p e = committed_under m env db (Under-Ensures m h) p e
