-- ===== src/Db/Firm.antt =====
-- Actions that fail in a transaction only by aborting it. Where such an action's error is dropped,
-- what commits has had its whole effect.
use abhiyan.Prelude.{◌≡◌, refl, inl, inr, true, some, List, [], ◌∷◌, All, arith}
use abhiyan.Schema.{Store}
use abhiyan.Db.{
  Env, Db, Result, ok, err, M, pure, continue, ◌>>=◌, forget, attempt, ignore, for_each,
}
use abhiyan.Db.Triples.{Holds, Triple}
use abhiyan.Db.Committed.{Post, Ensures}

abbrev pub FirmPost {ℓ} : {A : Type ℓ} → (A → Store → Type 0) → Result A → Db → Type 0
FirmPost Q (ok a) db = (db.in_tx ≡ true) × Holds (Q a) db
FirmPost Q (err e) db = (db.in_tx ≡ true) × (db.aborted ≡ true)

pub record Firm {ℓ} {A : Type ℓ} (P : Store → Type 0) (m : M A) (Q : A → Store → Type 0)
    : Type ℓ where
  pub at :
      (env : Env) (db : Db) → db.in_tx ≡ true → Holds P db → FirmPost Q (m env db).0 (m env db).1

module _ {ℓ} {A : Type ℓ} where
  weaken : (Q : A → Store → Type 0) (r : Result A) (db : Db) → FirmPost Q r db → Post Q r db
  weaken Q (ok a) db h = h
  weaken Q (err e) db h = tt

  pub Ensures-Firm :
      {P : Store → Type 0} {Q : A → Store → Type 0} (m : M A) → Firm P m Q → Ensures P m Q
  Ensures-Firm {Q} m f = record {
    at = λ env db t h. weaken Q (m env db).0 (m env db).1 (f.at env db t h);
  }

  pub Firm-pure :
      {P : Store → Type 0} {Q : A → Store → Type 0} (a : A)
      → ((s : Store) → P s → Q a s)
      → Firm P (pure a) Q
  unfolding pure
  Firm-pure a q = record { at = λ env db t h. ground (arith, q db.store) }

  strengthen :
      (Q R : A → Store → Type 0) (r : Result A) (db : Db)
      → ((a : A) (s : Store) → Q a s → R a s)
      → FirmPost Q r db
      → FirmPost R r db
  strengthen Q R (ok a) db q h = ground (arith, q a db.store)
  strengthen Q R (err e) db q h = h

  pub Firm-mono :
      {P : Store → Type 0} {Q R : A → Store → Type 0} (m : M A)
      → ((a : A) (s : Store) → Q a s → R a s)
      → Firm P m Q
      → Firm P m R
  Firm-mono {Q} {R} m q f = record {
    at = λ env db t h. strengthen Q R (m env db).0 (m env db).1 q (f.at env db t h);
  }

module _ {A : Type 0} where
  forgotten :
      (Q : A → Store → Type 0) (r : Result A) (db : Db)
      → FirmPost Q r db
      → FirmPost (λ o s. (a : A) × (o ≡ some a) × Q a s) (forget r) db
  forgotten Q (ok a) db h = elim h.1 [
    | inl dead ↦ (h.0, inl dead)
    | inr live ↦ (h.0, inr (a, refl, live))
  ]
  forgotten Q (err e) db h = (h.0, inl h.1)

  -- A dropped error shows up at COMMIT.
  pub Firm-attempt :
      {P : Store → Type 0} {Q : A → Store → Type 0} (m : M A)
      → Firm P m Q
      → Firm P (attempt m) (λ o s. (a : A) × (o ≡ some a) × Q a s)
  unfolding attempt
  Firm-attempt {Q} m f = record {
    at = λ env db t h. forgotten Q (m env db).0 (m env db).1 (f.at env db t h);
  }

module _ {ℓ} {A : Type ℓ} where
  forgotten_value :
      (Q : Store → Type 0) (r : Result A) (db : Db)
      → FirmPost (λ _. Q) r db
      → FirmPost (λ _. Q) (forget r) db
  forgotten_value Q (ok a) db h = h
  forgotten_value Q (err e) db h = (h.0, inl h.1)

  pub Firm-attempt_effect :
      {P Q : Store → Type 0} (m : M A) → Firm P m (λ _. Q) → Firm P (attempt m) (λ _. Q)
  unfolding attempt
  Firm-attempt_effect {Q} m f = record {
    at = λ env db t h. forgotten_value Q (m env db).0 (m env db).1 (f.at env db t h);
  }

  pub Firm-ignore :
      {P Q : Store → Type 0} (m : M A) → Firm P m (λ _. Q) → Firm P (ignore m) (λ _. Q)
  unfolding ignore
  Firm-ignore {Q} m f = record {
    at = λ env db t h. ignored (m env db).0 (m env db).1 (f.at env db t h);
  }
    where
      ignored : (r : Result A) (db : Db) → FirmPost (λ _. Q) r db → (db.in_tx ≡ true) × Holds Q db
      ignored (ok a) db h = h
      ignored (err e) db h = (h.0, inl h.1)

  pub Triple-Firm : {P Q : Store → Type 0} (m : M A) → Firm P m (λ _. Q) → Triple P m Q
  Triple-Firm {Q} m f = record {
    at = λ env db t h. both (m env db).0 (m env db).1 (f.at env db t h);
  }
    where
      both : (r : Result A) (db : Db) → FirmPost (λ _. Q) r db → (db.in_tx ≡ true) × Holds Q db
      both (ok a) db h = h
      both (err e) db h = (h.0, inl h.1)

pre-Holds :
    (P P' : Store → Type 0) (db : Db) → ((s : Store) → P' s → P s) → Holds P' db → Holds P db
pre-Holds P P' db q (inl dead) = inl dead
pre-Holds P P' db q (inr live) = inr (q db.store live)

module _ {ℓ} {A : Type ℓ} where
  pub Firm-pre :
      {P P' : Store → Type 0} {Q : A → Store → Type 0} (m : M A)
      → ((s : Store) → P' s → P s)
      → Firm P m Q
      → Firm P' m Q
  Firm-pre {P} {P'} m q f = record { at = λ env db t h. f.at env db t (pre-Holds P P' db q h) }

  both_post :
      (Q R : A → Store → Type 0) (r : Result A) (db : Db)
      → FirmPost Q r db
      → FirmPost R r db
      → FirmPost (λ a s. Q a s × R a s) r db
  both_post Q R (err e) db h k = h
  both_post Q R (ok a) db h k = elim h.1 [
    | inl dead ↦ (h.0, inl dead)
    | inr live ↦ elim k.1 [ inl dead ↦ (h.0, inl dead) | inr live' ↦ (h.0, inr (live, live')) ]
  ]

  pub Firm-and :
      {P : Store → Type 0} {Q R : A → Store → Type 0} (m : M A)
      → Firm P m Q
      → Firm P m R
      → Firm P m (λ a s. Q a s × R a s)
  Firm-and {Q} {R} m f g = record {
    at = λ env db t h. both_post Q R (m env db).0 (m env db).1 (f.at env db t h) (g.at env db t h);
  }

module _ {ℓ κ} {A : Type ℓ} {B : Type κ} where
  Firm-continue :
      (Q : A → Store → Type 0) (R : B → Store → Type 0) (r : Result A) (k : A → M B) (env : Env)
      (db : Db)
      → ((a : A) → Firm (Q a) (k a) R)
      → FirmPost Q r db
      → FirmPost R (continue r k env db).0 (continue r k env db).1
  Firm-continue Q R (ok a) k env db q p = (q a).at env db p.0 p.1
  Firm-continue Q R (err e) k env db q p = p

  pub Firm-bind :
      {P : Store → Type 0} {Q : A → Store → Type 0} {R : B → Store → Type 0} (m : M A) (k : A → M B)
      → Firm P m Q
      → ((a : A) → Firm (Q a) (k a) R)
      → Firm P (m >>= k) R
  unfolding ◌>>=◌
  Firm-bind {Q} {R} m k qm qk = record {
    at = λ env db t h. Firm-continue Q R (m env db).0 k env (m env db).1 qk (qm.at env db t h);
  }

module _ {ℓ} {A : Type ℓ} where
  pub Firm-for_each :
      {P : Store → Type 0} (xs : List A) (body : A → M (Unit {0}))
      → ((x : A) → Firm P (body x) (λ _. P))
      → Firm P (for_each xs body) (λ _. P)
  unfolding for_each
  Firm-for_each [] body q = Firm-pure tt (λ s h. h)
  Firm-for_each (x ∷ xs) body q =
      Firm-bind (body x) (λ _. for_each xs body) (q x) (λ _. Firm-for_each xs body q)

  -- A loop whose every round does its part and undoes no other round's has done all parts.
  pub Firm-for_each-All :
      {P : Store → Type 0} (Q : A → Store → Type 0) (xs : List A) (body : A → M (Unit {0}))
      → ((x : A) → Firm P (body x) (λ _ s. P s × Q x s))
      → ((x y : A) → Firm (λ s. P s × Q y s) (body x) (λ _ s. P s × Q y s))
      → Firm P (for_each xs body) (λ _ s. P s × All (λ x. Q x s) xs)
  unfolding for_each
  Firm-for_each-All Q [] body own other = Firm-pure tt (λ s h. (h, tt))
  Firm-for_each-All {P} Q (x ∷ xs) body own other =
      Firm-bind (body x) (λ _. for_each xs body) (own x)
        (λ _.
          Firm-mono (for_each xs body) (λ _ s h. (h.0.0, (h.0.1, h.1)))
            (Firm-for_each-All {P = λ s. P s × Q x s} Q xs body
              (λ y.
                Firm-mono (body y) (λ _ s h. ((h.0.0, h.0.1), h.1.1))
                  (Firm-and (body y) (other y x) (Firm-pre (body y) (λ s h. h.0) (own y))))
              (λ y z.
                Firm-mono (body y) (λ _ s h. ((h.0.0, h.0.1), h.1.1))
                  (Firm-and (body y) (Firm-pre (body y) (λ s h. h.0) (other y x))
                    (Firm-pre (body y) (λ s h. (h.0.0, h.1)) (other y z))))))
