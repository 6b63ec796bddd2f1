-- ===== src/Db/Yields.antt =====
-- What an operation outside a transaction has found and done where it returns a value, in one
-- environment. No transaction is open between its statements.
use abhiyan.Prelude.{
  ℕ, String, ◌||◌, Bool-cases, Option-cases, inl, inr, suc, if◌then◌else◌, ◌≡◌, refl, ap, sym,
  subst, ◌∙◌, Bool, true, false, Option, none, some, arith,
}
use abhiyan.Schema.{Store}
use abhiyan.Db.{
  outcome, Env, Db, Error, Result, ok, err, M, pure, raise, lift, continue, ◌>>=◌, settle, found,
  checked, attempt, forget, select, select_one, exec, write_checked, returning, enqueue, now,
  parse_uuid, uuid_printer, Job, transaction, finish,
}
use abhiyan.Db.Smooth.{Faultless}
use abhiyan.Db.Rules.{Quiet}
use abhiyan.Db.Committed.{Under, Post}

abbrev pub Idle : Db → Type 0
Idle db = (db.in_tx ≡ false) × (db.aborted ≡ false)

abbrev pub Yielded : {A : Type 0} → (A → Store → Type 0) → Result A → Db → Type 0
Yielded Q (ok a) db = Idle db × Q a db.store
Yielded Q (err e) db = Idle db

pub record Yields {A : Type 0} (env : Env) (P : Store → Type 0) (m : M A) (Q : A → Store → Type 0)
    : Type 0 where
  pub at : (db : Db) → Idle db → P db.store → Yielded Q (m env db).0 (m env db).1

module _ {A : Type 0} where
  of_yielded :
      (Q : A → Store → Type 0) (r : Result A) (db : Db) {a : A}
      → Yielded Q r db
      → r ≡ ok a
      → Q a db.store
  of_yielded Q (ok b) db {a} y h = let e : b ≡ a = cc in subst (λ x. Q x db.store) e y.1
  of_yielded Q (err e) db y h = cc

  mono :
      (Q R : A → Store → Type 0) (r : Result A) (db : Db)
      → ((a : A) (s : Store) → Q a s → R a s)
      → Yielded Q r db
      → Yielded R r db
  mono Q R (ok a) db q y = (y.0, q a db.store y.1)
  mono Q R (err e) db q y = y

  dropped :
      (Q : A → Store → Type 0) (P : Store → Type 0) (r : Result A) (db : Db)
      → P db.store
      → Yielded Q r db
      → Yielded (λ (o : Option A). P) (forget r) db
  dropped Q P (ok a) db p y = (y.0, p)
  dropped Q P (err e) db p y = (y, p)

  known :
      (F : A → Type 0) (P : Store → Type 0) (r : Result A) (db : Db)
      → P db.store
      → Yielded (λ a s. P s × F a) r db
      → Yielded (λ o s. P s × ((a : A) → o ≡ some a → F a)) (forget r) db
  known F P (ok b) db p y = (y.0, (p, λ a e. let same : b ≡ a = cc in subst F same y.1.1))
  known F P (err e) db p y = (y, (p, λ a e. absurd cc))

  gone_on :
      (Q : A → Store → Type 0) (r : Result A) (db : Db)
      → Yielded Q r db
      → Yielded (λ r s. (a : A) → r ≡ ok a → Q a s) (ok r) db
  gone_on Q (ok b) db y = (y.0, λ a e. let same : b ≡ a = cc in subst (λ z. Q z db.store) same y.1)
  gone_on Q (err e) db y = (y, λ a h. absurd cc)

  found_yields :
      (P : Store → Type 0) (f : Store → Option A) (o : Option A) (db : Db)
      → f db.store ≡ o
      → Idle db
      → P db.store
      → Yielded
          (λ a s. P s × (f s ≡ some a))
          (settle (found db.store o) db).0
          (settle (found db.store o) db).1
  found_yields P f none db e i p = i
  found_yields P f (some a) db e i p = (i, (p, e))

  checked_yields :
      (Q : A → Store → Type 0) (o : Option (A × Store)) (db : Db)
      → Idle db
      → ((a : A) (s : Store) → o ≡ some (a, s) → Q a s)
      → Yielded Q (settle (checked o) db).0 (settle (checked o) db).1
  checked_yields Q none db i q = (i.0, i.0)
  checked_yields Q (some (a, s)) db i q = (i, q a s refl)

module _ {A : Type 0} (env : Env) where
  finished :
      (Q : A → Store → Type 0) (before : Store) (r : Result A) (db : Db)
      → Post Q r db
      → Yielded Q (finish before r env db).0 (finish before r env db).1
  finished Q before (err e) db p = (refl, refl)
  finished Q before (ok a) db p = elim (Bool-cases (db.aborted || env.fault db.tick)) [
    | inl bad ↦ rw bad (refl, refl)
    | inr good ↦ elim p.1 [ inl dead ↦ ground arith | inr live ↦ rw good ((refl, refl), live) ]
  ]

module _ {A : Type 0} {env : Env} {P : Store → Type 0} where
  -- What is known where the operation has returned
  pub yielded :
      {Q : A → Store → Type 0} (m : M A) (db : Db) {a : A}
      → Yields env P m Q
      → Idle db
      → P db.store
      → (m env db).0 ≡ ok a
      → Q a (m env db).1.store
  yielded {Q} m db y i p h = of_yielded Q (m env db).0 (m env db).1 (y.at db i p) h

  pub Yields-mono :
      {Q R : A → Store → Type 0} (m : M A)
      → ((a : A) (s : Store) → Q a s → R a s)
      → Yields env P m Q
      → Yields env P m R
  Yields-mono {Q} {R} m q y = record {
    at = λ db i p. mono Q R (m env db).0 (m env db).1 q (y.at db i p);
  }

  -- A fact that the tables play no part in
  pub Yields-fact :
      {F : Type 0} {Q : A → Store → Type 0} (m : M A)
      → (F → Yields env P m Q)
      → Yields env (λ s. P s × F) m Q
  Yields-fact m y = record { at = λ db i p. (y p.1).at db i p.0 }

  pub Yields-pure :
      {Q : A → Store → Type 0} (a : A) → ((s : Store) → P s → Q a s) → Yields env P (pure a) Q
  unfolding pure
  Yields-pure a q = record { at = λ db i p. (i, q db.store p) }

  pub Yields-raise : {Q : A → Store → Type 0} (e : Error) → Yields env P (raise e) Q
  unfolding raise
  Yields-raise e = record { at = λ db i p. i }

  pub Yields-if :
      {Q : A → Store → Type 0} (b : Bool) (m n : M A)
      → (b ≡ true → Yields env P m Q)
      → (b ≡ false → Yields env P n Q)
      → Yields env P (if b then m else n) Q
  Yields-if true m n y z = y refl
  Yields-if false m n y z = z refl

  -- A read
  pub Yields-select :
      (f : Env → ℕ → Store → A) → Yields env P (select f) (λ a s. P s × ((t : ℕ) × (a ≡ f env t s)))
  unfolding select
  Yields-select f = record {
    at = λ db i p. elim (Bool-cases (db.aborted || env.fault db.tick)) [
      | inl bad ↦ rw bad (i.0, i.0)
      | inr good ↦ rw good (i, (p, (db.tick, refl)))
    ];
  }

  -- The same where no statement is refused, and a dropped error is none
  pub Yields-attempt-select :
      (f : Env → ℕ → Store → A)
      → Faultless env
      → Yields env P (attempt (select f)) (λ o s. P s × ((t : ℕ) × (o ≡ some (f env t s))))
  unfolding attempt select
  Yields-attempt-select f calm = record {
    at = λ db i p. rw (i.1, calm db.tick) ((i.0, refl), (p, (db.tick, refl)));
  }

  -- A read whose error is dropped
  pub Yields-attempt :
      {Q : A → Store → Type 0} (m : M A)
      → Quiet m
      → Yields env P m Q
      → Yields env P (attempt m) (λ _. P)
  unfolding attempt
  Yields-attempt {Q} m quiet y = record {
    at = λ db i p.
        dropped Q P (m env db).0 (m env db).1 (subst P (sym (quiet.at env db)) p) (y.at db i p);
  }

  -- The same, with what is known where it returned
  pub Yields-attempt_known :
      {F : A → Type 0} (m : M A)
      → Quiet m
      → Yields env P m (λ a s. P s × F a)
      → Yields env P (attempt m) (λ o s. P s × ((a : A) → o ≡ some a → F a))
  unfolding attempt
  Yields-attempt_known {F} m quiet y = record {
    at = λ db i p.
        known F P (m env db).0 (m env db).1 (subst P (sym (quiet.at env db)) p) (y.at db i p);
  }

  -- Where the code goes on by the error
  pub Yields-outcome :
      {Q : A → Store → Type 0} (m : M A)
      → Yields env P m Q
      → Yields env P (outcome m) (λ r s. (a : A) → r ≡ ok a → Q a s)
  unfolding outcome
  Yields-outcome {Q} m y = record {
    at = λ db i p. gone_on Q (m env db).0 (m env db).1 (y.at db i p);
  }

  pub Yields-select_one :
      (f : Store → Option A) → Yields env P (select_one f) (λ a s. P s × (f s ≡ some a))
  unfolding select_one
  Yields-select_one f = record {
    at = λ db i p. elim (Bool-cases (db.aborted || env.fault db.tick)) [
      | inl bad ↦ rw bad (i.0, i.0)
      | inr good ↦
          rw good (found_yields P f (f db.store) (record db { tick = suc db.tick }) refl i p)
    ];
  }

  pub Yields-write_checked :
      {Q : A → Store → Type 0} (f : Env → ℕ → Store → Option (A × Store))
      → ((t : ℕ) (s : Store) → P s → (a : A) (s' : Store) → f env t s ≡ some (a, s') → Q a s')
      → Yields env P (write_checked f) Q
  unfolding write_checked
  Yields-write_checked {Q} f q = record {
    at = λ db i p. elim (Bool-cases (db.aborted || env.fault db.tick)) [
      | inl bad ↦ rw bad (i.0, i.0)
      | inr good ↦ rw good (
          checked_yields Q (f env db.tick db.store) (record db { tick = suc db.tick }) i
            (q db.tick db.store p))
    ];
  }

  pub Yields-returning :
      {Q : A → Store → Type 0} (f : Env → ℕ → Store → A × Store)
      → ((t : ℕ) (s : Store) → P s → Q (f env t s).0 (f env t s).1)
      → Yields env P (returning f) Q
  unfolding returning
  Yields-returning f q = record {
    at = λ db i p. elim (Bool-cases (db.aborted || env.fault db.tick)) [
      | inl bad ↦ rw bad (i.0, i.0)
      | inr good ↦ rw good (i, q db.tick db.store p)
    ];
  }

  pub Yields-transaction :
      {Q : A → Store → Type 0} (m : M A) → Under env P m Q → Yields env P (transaction m) Q
  unfolding transaction
  Yields-transaction {Q} m u = record {
    at = λ db i p. elim (Bool-cases (env.fault db.tick)) [
      | inl bad ↦ rw bad i
      | inr good ↦
          let begun : Db = record db { tick = suc db.tick; in_tx = true; aborted = false } in
          rw good
            (finished env Q db.store (m env begun).0 (m env begun).1 (u.at begun refl (inr p)))
    ];
  }

module _ {env : Env} {P : Store → Type 0} where
  pub Yields-exec :
      {Q : Store → Type 0} (f : Env → ℕ → Store → Store)
      → ((t : ℕ) (s : Store) → P s → Q (f env t s))
      → Yields env P (exec f) (λ _. Q)
  unfolding exec
  Yields-exec f q = record {
    at = λ db i p. elim (Bool-cases (db.aborted || env.fault db.tick)) [
      | inl bad ↦ rw bad (i.0, i.0)
      | inr good ↦ rw good (i, q db.tick db.store p)
    ];
  }

  pub Yields-enqueue : (j : Job) → Yields env P (enqueue j) (λ _. P)
  unfolding enqueue
  Yields-enqueue j = record { at = λ db i p. (i, p) }

  pub Yields-now : Yields env P now (λ a s. P s × ((t : ℕ) × (a ≡ env.clock t)))
  unfolding now
  Yields-now = record { at = λ db i p. (i, (p, (db.tick, refl))) }

  pub Yields-require :
      (b : Bool) (e : Error)
      → Yields env P (if b then pure tt else raise e) (λ _ s. P s × (b ≡ true))
  Yields-require true e = Yields-pure tt (λ s h. (h, refl))
  Yields-require false e = Yields-raise e

  pub Yields-uuid_printer : Yields env P uuid_printer (λ a s. P s × (a ≡ env.uuid_string))
  unfolding uuid_printer
  Yields-uuid_printer = record { at = λ db i p. (i, (p, refl)) }

  pub Yields-parse_uuid :
      (text : String) → Yields env P (parse_uuid text) (λ a s. P s × (env.parse_uuid text ≡ some a))
  unfolding parse_uuid lift
  Yields-parse_uuid text = record {
    at = λ db i p. elim (Option-cases (env.parse_uuid text)) [
      | inl bad ↦ rw bad i
      | inr found ↦ let (a, good) = found in rw good (i, (p, refl))
    ];
  }

module _ {A : Type 0} {env : Env} {P : Store → Type 0} where
  pub Yields-lift : (o : Option A) (e : Error) → Yields env P (lift o e) (λ a s. P s × (o ≡ some a))
  unfolding lift
  Yields-lift none e = record { at = λ db i p. i }
  Yields-lift (some a) e = record { at = λ db i p. (i, (p, refl)) }

module _ {A B : Type 0} (env : Env) where
  on_result :
      (Q : A → Store → Type 0) (R : B → Store → Type 0) (r : Result A) (k : A → M B) (db : Db)
      → ((a : A) → Yields env (Q a) (k a) R)
      → Yielded Q r db
      → Yielded R (continue r k env db).0 (continue r k env db).1
  on_result Q R (ok a) k db q y = (q a).at db y.0 y.1
  on_result Q R (err e) k db q y = y

module _ {A B : Type 0} {env : Env} {P : Store → Type 0} where
  pub Yields-bind :
      {Q : A → Store → Type 0} {R : B → Store → Type 0} (m : M A) (k : A → M B)
      → Yields env P m Q
      → ((a : A) → Yields env (Q a) (k a) R)
      → Yields env P (m >>= k) R
  unfolding ◌>>=◌
  Yields-bind {Q} {R} m k y z = record {
    at = λ db i p. on_result env Q R (m env db).0 k (m env db).1 z (y.at db i p);
  }

  -- A check or a read that leaves the tables alone, and what follows from its value
  pub Yields-check :
      {F : A → Type 0} {R : B → Store → Type 0} (m : M A) (k : A → M B)
      → Yields env P m (λ a s. P s × F a)
      → ((a : A) → F a → Yields env P (k a) R)
      → Yields env P (m >>= k) R
  Yields-check m k y z = Yields-bind m k y (λ a. Yields-fact (k a) (z a))

-- The tables as they were at the start
module _ {A : Type 0} {env : Env} {s0 : Store} where
  pub Yields-read :
      (f : Env → ℕ → Store → A)
      → Yields env (λ s. s ≡ s0) (select f) (λ a s. (s ≡ s0) × ((t : ℕ) × (a ≡ f env t s0)))
  Yields-read f =
      Yields-mono (select f) (λ a s h. let (t, e) = h.1 in (h.0, (t, e ∙ ap (f env t) h.0)))
        (Yields-select f)

  pub Yields-read_one :
      (f : Store → Option A)
      → Yields env (λ s. s ≡ s0) (select_one f) (λ a s. (s ≡ s0) × (f s0 ≡ some a))
  Yields-read_one f =
      Yields-mono (select_one f) (λ a s h. (h.0, ap f (sym h.0) ∙ h.1)) (Yields-select_one f)
