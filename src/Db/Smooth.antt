-- ===== src/Db/Smooth.antt =====
-- What succeeds where no statement is refused by the server: actions that abort no transaction,
-- and those that return a value too.
use abhiyan.Prelude.{
  ℕ, suc, String, Bool, true, false, Option, none, some, List, [], ◌∷◌, ◌≡◌, refl, if◌then◌else◌,
}
use abhiyan.Schema.{Store}
use abhiyan.Db.{
  Env, Db, Result, ok, err, M, pure, lift, continue, ◌>>=◌, settle, found, attempt, ignore,
  transaction, select, select_one, returning, write_checked, exec, enqueue, now, parse_uuid,
  for_each, Job, forget,
}

-- No statement is refused.
abbrev pub Faultless : Env → Type 0
Faultless env = (n : ℕ) → env.fault n ≡ false

-- The action aborts nothing, whatever it returns.
pub record Smooth {ℓ} {A : Type ℓ} (env : Env) (m : M A) : Type ℓ where
  pub at : (db : Db) → db.aborted ≡ false → (m env db).1.aborted ≡ false

-- It returns a value too.
pub record Clean {ℓ} {A : Type ℓ} (env : Env) (m : M A) : Type ℓ where
  pub at :
      (db : Db)
      → db.aborted ≡ false
      → (a : A) × ((m env db).0 ≡ ok a) × ((m env db).1.aborted ≡ false)

module _ {ℓ} {A : Type ℓ} where
  forgets : (r : Result A) → (a : Option A) × (forget r ≡ ok a)
  forgets (ok a) = (some a, refl)
  forgets (err e) = (none, refl)

  found_smooth :
      (s : Store) (o : Option A) (db : Db)
      → db.aborted ≡ false
      → (settle (found s o) db).1.aborted ≡ false
  found_smooth s none db h = h
  found_smooth s (some a) db h = h

module _ {ℓ} {A : Type ℓ} {env : Env} where
  pub Smooth-Clean : (m : M A) → Clean env m → Smooth env m
  Smooth-Clean m c = record { at = λ db h. (c.at db h).2 }

  pub Clean-pure : (a : A) → Clean env (pure a)
  unfolding pure
  Clean-pure a = record { at = λ db h. (a, refl, h) }

  pub Clean-ignore : (m : M A) → Smooth env m → Clean env (ignore m)
  unfolding ignore
  Clean-ignore m s = record { at = λ db h. (tt, refl, s.at db h) }

  pub Clean-attempt : (m : M A) → Smooth env m → Clean env (attempt m)
  unfolding attempt
  Clean-attempt m s = record { at = λ db h. let (a, e) = forgets (m env db).0 in (a, e, s.at db h) }

  pub Clean-if : (b : Bool) (m n : M A) → Clean env m → Clean env n → Clean env (if b then m else n)
  Clean-if true m n p q = p
  Clean-if false m n p q = q

module _ {ℓ} {A : Type ℓ} {env : Env} (calm : Faultless env) where
  pub Clean-select : (f : Env → ℕ → Store → A) → Clean env (select f)
  unfolding select
  Clean-select f = record { at = λ db h. rw (h, calm db.tick) (f env db.tick db.store, refl, refl) }

  pub Clean-returning : (f : Env → ℕ → Store → A × Store) → Clean env (returning f)
  unfolding returning
  Clean-returning f = record {
    at = λ db h. rw (h, calm db.tick) ((f env db.tick db.store).0, refl, refl);
  }

  pub Smooth-select_one : (f : Store → Option A) → Smooth env (select_one f)
  unfolding select_one
  Smooth-select_one f = record {
    at = λ db h.
        rw (h, calm db.tick)
          (found_smooth db.store (f db.store) (record db { tick = suc db.tick; aborted = false })
            refl);
  }

  -- A write that the server accepts
  pub Clean-write_checked :
      (f : Env → ℕ → Store → Option (A × Store))
      → ((t : ℕ) (s : Store) → (r : A × Store) × (f env t s ≡ some r))
      → Clean env (write_checked f)
  unfolding write_checked
  Clean-write_checked f q = record {
    at = λ db h. let (r, e) = q db.tick db.store in rw (h, calm db.tick, e) (r.0, refl, refl);
  }

  pub Clean-transaction : (m : M A) → Clean env m → Clean env (transaction m)
  unfolding transaction
  Clean-transaction m c = record {
    at = λ db h.
        let begun : Db = record db { tick = suc db.tick; in_tx = true; aborted = false } in
        let (a, e, s) = c.at begun refl in
        rw (calm db.tick, e, s, calm (m env begun).1.tick) (a, refl, refl);
  }

pub Clean-exec : {env : Env} → Faultless env → (f : Env → ℕ → Store → Store) → Clean env (exec f)
unfolding exec
Clean-exec calm f = record { at = λ db h. rw (h, calm db.tick) (tt, refl, refl) }

pub Clean-now : {env : Env} → Clean env now
unfolding now
Clean-now {env} = record { at = λ db h. (env.clock db.tick, refl, h) }

pub Clean-enqueue : {env : Env} (j : Job) → Clean env (enqueue j)
unfolding enqueue
Clean-enqueue j = record { at = λ db h. (tt, refl, h) }

pub Clean-parse_uuid :
    {env : Env} (text : String) (t : ℕ) → env.parse_uuid text ≡ some t → Clean env (parse_uuid text)
unfolding parse_uuid lift
Clean-parse_uuid text t e = record { at = λ db h. rw e (t, refl, h) }

module _ {ℓ κ} {A : Type ℓ} {B : Type κ} {env : Env} where
  goes_on :
      (r : Result A) (k : A → M B) (db : Db) (a : A)
      → r ≡ ok a
      → Clean env (k a)
      → db.aborted ≡ false
      → (b : B) × ((continue r k env db).0 ≡ ok b) × ((continue r k env db).1.aborted ≡ false)
  goes_on r k db a e c h = rw e (c.at db h)

  pub Clean-bind :
      (m : M A) (k : A → M B) → Clean env m → ((a : A) → Clean env (k a)) → Clean env (m >>= k)
  unfolding ◌>>=◌
  Clean-bind m k c q = record {
    at = λ db h. let (a, e, s) = c.at db h in goes_on (m env db).0 k (m env db).1 a e (q a) s;
  }

  Smooth-on :
      (r : Result A) (k : A → M B) (db : Db)
      → ((a : A) → Smooth env (k a))
      → db.aborted ≡ false
      → (continue r k env db).1.aborted ≡ false
  Smooth-on (ok a) k db q h = (q a).at db h
  Smooth-on (err e) k db q h = h

  pub Smooth-bind :
      (m : M A) (k : A → M B) → Smooth env m → ((a : A) → Smooth env (k a)) → Smooth env (m >>= k)
  unfolding ◌>>=◌
  Smooth-bind m k c q = record { at = λ db h. Smooth-on (m env db).0 k (m env db).1 q (c.at db h) }

pub Clean-for_each {ℓ} :
    {A : Type ℓ} {env : Env} (xs : List A) (body : A → M (Unit {0}))
    → ((a : A) → Clean env (body a))
    → Clean env (for_each xs body)
unfolding for_each
Clean-for_each [] body q = Clean-pure tt
Clean-for_each (x ∷ xs) body q =
    Clean-bind (body x) (λ _. for_each xs body) (q x) (λ _. Clean-for_each xs body q)

pub ruleset smooth_rules = (
  Smooth-Clean, Clean-pure, Clean-ignore, Clean-attempt, Clean-if, Clean-now, Clean-enqueue,
  Clean-bind, Clean-for_each,
)
