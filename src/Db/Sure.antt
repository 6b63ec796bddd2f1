-- ===== src/Db/Sure.antt =====
-- Actions that return no error whatever they write, and writes that change nothing when they fail.
use abhiyan.Prelude.{
  ℕ, ap, ◌||◌, Bool-cases, inl, inr, suc, if◌then◌else◌, ◌≡◌, refl, ◌∙◌, Bool, true, false, Option,
  none, some,
}
use abhiyan.Schema.{Store}
use abhiyan.Db.{
  Env, Db, Error, Result, ok, err, M, pure, continue, ◌>>=◌, settle, ignore, write_checked, checked,
}
use abhiyan.Db.Rules.{Atomic}

-- `m` returns no error, whatever it writes.
pub record Sure {ℓ} {A : Type ℓ} (m : M A) : Type ℓ where
  pub at : (env : Env) (db : Db) → (a : A) × ((m env db).0 ≡ ok a)

module _ {ℓ} {A : Type ℓ} where
  pub Sure-ignore : (m : M A) → Sure (ignore m)
  unfolding ignore
  Sure-ignore m = record { at = λ env db. (tt, refl) }

  pub Sure-pure : (a : A) → Sure (pure a)
  unfolding pure
  Sure-pure a = record { at = λ env db. (a, refl) }

  pub Sure-if : (b : Bool) (m n : M A) → Sure m → Sure n → Sure (if b then m else n)
  Sure-if true m n qm qn = qm
  Sure-if false m n qm qn = qn

  checked-error :
      (o : Option (A × Store)) (db : Db) {e : Error}
      → (settle (checked o) db).0 ≡ err e
      → (settle (checked o) db).1.store ≡ db.store
  checked-error none db h = refl
  checked-error (some (a, s)) db h = cc

  pub Atomic-write_checked : (f : Env → ℕ → Store → Option (A × Store)) → Atomic (write_checked f)
  unfolding write_checked
  Atomic-write_checked f = record {
    at = λ env db h. elim (Bool-cases (db.aborted || env.fault db.tick)) [
      | inl bad ↦ rw bad
      | inr good ↦
          rw good (
            checked-error (f env db.tick db.store) (record db { tick = suc db.tick })
              (rw good at h))
    ];
  }

module _ {ℓ κ} {A : Type ℓ} {B : Type κ} where
  Sure-continue :
      (r : Result A) (k : A → M B) (env : Env) (db : Db) {e : Error}
      → ((a : A) → Sure (k a))
      → (continue r k env db).0 ≡ err e
      → (r ≡ err e) × (continue r k env db ≡ (err e, db))
  Sure-continue (ok a) k env db t h = let (b, e) = (t a).at env db in cc
  Sure-continue (err e) k env db t h = (cc, cc)

  pub Atomic-Sure : (m : M A) (k : A → M B) → Atomic m → ((a : A) → Sure (k a)) → Atomic (m >>= k)
  unfolding ◌>>=◌
  Atomic-Sure m k am tk = record {
    at = λ env db h.
        let (f, s) = Sure-continue (m env db).0 k env (m env db).1 tk h in
        ap (λ r. r.1.store) s ∙ am.at env db f;
  }
