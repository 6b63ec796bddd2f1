-- ===== src/Db/Statements.antt =====
-- The statements of a transaction fail only by aborting it.
use abhiyan.Prelude.{ℕ, suc, ◌≡◌, refl, inl, inr, true, Option, none, some, ◌||◌, Bool-cases, arith}
use abhiyan.Schema.{Store}
use abhiyan.Db.{
  Env, Db, settle, select, found, select_one, exec, returning, write_checked, checked, now,
}
use abhiyan.Db.Firm.{Firm, FirmPost}

pub Firm-exec :
    {P Q : Store → Type 0} (f : Env → ℕ → Store → Store)
    → ((env : Env) (t : ℕ) (s : Store) → P s → Q (f env t s))
    → Firm P (exec f) (λ _. Q)
unfolding exec
Firm-exec f q = record { at = λ env db t h. ground (arith, q env db.tick db.store) }

pub Firm-now : {P : Store → Type 0} → Firm P now (λ _. P)
unfolding now
Firm-now = record { at = λ env db t h. (t, h) }

module _ {A : Type 0} {P : Store → Type 0} where
  pub Firm-select :
      (f : Env → ℕ → Store → A)
      → Firm P (select f) (λ a s. P s × ((env : Env) × (t : ℕ) × (a ≡ f env t s)))
  unfolding select
  Firm-select f = record {
    at = λ env db t h. elim h [
      | inl dead ↦ ground arith
      | inr live ↦ elim (Bool-cases (db.aborted || env.fault db.tick)) [
        | inl bad ↦ rw bad (t, t)
        | inr good ↦ rw good (t, inr (live, (env, db.tick, refl)))
      ]
    ];
  }

checked-Firm {ℓ} :
    {A : Type ℓ} (Q : Store → Type 0) (o : Option (A × Store)) (db : Db)
    → db.in_tx ≡ true
    → ((a : A) (s : Store) → o ≡ some (a, s) → Q s)
    → FirmPost (λ _. Q) (settle (checked o) db).0 (settle (checked o) db).1
checked-Firm Q none db t q = (t, t)
checked-Firm Q (some (a, s)) db t q = (t, inr (q a s refl))

module _ {ℓ} {A : Type ℓ} {P : Store → Type 0} where
  pub Firm-returning :
      {Q : Store → Type 0} (f : Env → ℕ → Store → A × Store)
      → ((env : Env) (t : ℕ) (s : Store) → P s → Q (f env t s).1)
      → Firm P (returning f) (λ _. Q)
  unfolding returning
  Firm-returning f q = record { at = λ env db t h. ground (arith, q env db.tick db.store) }

  pub Firm-write_checked :
      {Q : Store → Type 0} (f : Env → ℕ → Store → Option (A × Store))
      → ((env : Env) (t : ℕ) (s : Store)
          → P s
          → (a : A) (s' : Store) → f env t s ≡ some (a, s')
          → Q s')
      → Firm P (write_checked f) (λ _. Q)
  unfolding write_checked
  Firm-write_checked {Q} f q = record {
    at = λ env db t h. elim h [
      | inl dead ↦ ground arith
      | inr live ↦ elim (Bool-cases (db.aborted || env.fault db.tick)) [
        | inl bad ↦ rw bad (t, t)
        | inr good ↦ rw good (
            checked-Firm Q (f env db.tick db.store) (record db { tick = suc db.tick }) t
              (q env db.tick db.store live))
      ]
    ];
  }

module _ {A : Type 0} where
  found-Firm :
      (P : Store → Type 0) (f : Store → Option A) (o : Option A) (db : Db) (a : A)
      → db.in_tx ≡ true
      → P db.store
      → f db.store ≡ o
      → o ≡ some a
      → FirmPost
          (λ a s. P s × (f s ≡ some a))
          (settle (found db.store o) db).0
          (settle (found db.store o) db).1
  found-Firm P f none db a t h e x = cc
  found-Firm P f (some b) db a t h e x = (t, inr (h, e))

  -- A row that is there is found.
  pub Firm-select_one :
      {P : Store → Type 0} (f : Store → Option A)
      → ((s : Store) → P s → (a : A) × (f s ≡ some a))
      → Firm P (select_one f) (λ a s. P s × (f s ≡ some a))
  unfolding select_one
  Firm-select_one {P} f q = record {
    at = λ env db t h. elim h [
      | inl dead ↦ ground arith
      | inr live ↦ elim (Bool-cases (db.aborted || env.fault db.tick)) [
        | inl bad ↦ rw bad (t, t)
        | inr good ↦
            let (a, e) = q db.store live in
            rw good (found-Firm P f (f db.store) (record db { tick = suc db.tick }) a t live refl e)
      ]
    ];
  }
