-- ===== src/Tasks/Rebuild.antt =====
-- What rebuilding the reminders of a request leaves in the table: one row for each, in order, or
-- an aborted transaction.
use abhiyan.Prelude.{
  ℕ, Option, none, some, List, [], ◌∷◌, ◌++◌, ◌≡◌, refl, sym, subst, ◌∙◌, ap, arith,
}
use mathlib.Core.List.{append-nil, append_assoc}
use abhiyan.Schema.{Task, Reminder, Store}
use abhiyan.Db.{ignore, for_each}
use abhiyan.Db.Triples.{Triple}
use abhiyan.Db.Firm.{Firm-mono, Firm, Firm-pure, Firm-bind, Firm-ignore, Firm-pre, Triple-Firm}
use abhiyan.Db.Statements.{Firm-write_checked}
use abhiyan.Sql.Reminders.{CreateReminderParams, reminder_row, insert_reminder, create_reminder}
use abhiyan.Tasks.Reminders.{CreateReminderPayload, reminder_params, rebuild_reminders}

-- The row that the database makes of one reminder of the request
abbrev pub IsRowOf : ℕ → CreateReminderPayload → Reminder → Type 0
IsRowOf t p r = (id : ℕ) × (reminder_row id (reminder_params t p) ≡ some r)

abbrev pub AreRowsOf : ℕ → List CreateReminderPayload → List Reminder → Type 0
AreRowsOf t [] [] = Unit
AreRowsOf t [] (r ∷ rs) = ⊥
AreRowsOf t (p ∷ ps) [] = ⊥
AreRowsOf t (p ∷ ps) (r ∷ rs) = IsRowOf t p r × AreRowsOf t ps rs

AreRowsOf-append :
    (t : ℕ) (ps : List CreateReminderPayload) (rs : List Reminder) (p : CreateReminderPayload)
    (r : Reminder)
    → AreRowsOf t ps rs
    → IsRowOf t p r
    → AreRowsOf t (ps ++ p ∷ []) (rs ++ r ∷ [])
AreRowsOf-append t [] [] p r h k = (k, tt)
AreRowsOf-append t [] (s ∷ rs) p r h k = elim h [ ]
AreRowsOf-append t (q ∷ ps) [] p r h k = elim h [ ]
AreRowsOf-append t (q ∷ ps) (s ∷ rs) p r h k = (h.0, AreRowsOf-append t ps rs p r h.1 k)

-- The tasks are `ts`, and the reminders `base` and then rows of the given payloads.
abbrev pub Rebuilt :
    List Task → List Reminder → ℕ → List CreateReminderPayload → List Task → List Reminder → Type 0
Rebuilt ts base t ps tasks reminders =
    (tasks ≡ ts) × ((rows : List Reminder) × AreRowsOf t ps rows × (reminders ≡ base ++ rows))

abbrev At : (List Task → List Reminder → Type 0) → Store → Type 0
At R s = R s.tasks s.reminders

inserted :
    (id : ℕ) (p : CreateReminderParams) (s : Store) (u : Unit {0}) (s' : Store)
    → insert_reminder id p s ≡ some (u, s')
    → (r : Reminder) × (reminder_row id p ≡ some r)
      × (s'.tasks ≡ s.tasks)
      × (s'.reminders ≡ s.reminders ++ r ∷ [])
inserted id p s u s' h = from (reminder_row id p) h
  where
    from :
        (o : Option Reminder)
        → elim o as (λ _. Option (Unit {0} × Store)) [
          | none ↦ none
          | some r ↦ some (tt, record s { reminders = s.reminders ++ r ∷ [] })
        ]
          ≡ some (u, s')
        → (r : Reminder) × (o ≡ some r)
          × (s'.tasks ≡ s.tasks)
          × (s'.reminders ≡ s.reminders ++ r ∷ [])
    from none e = cc
    from (some r) e = (r, refl, ground arith, ground arith)

-- `K` is what is known of the values that the code has read.
create_kept :
    (K : Type 0) (ts : List Task) (base : List Reminder) (t : ℕ) (ps : List CreateReminderPayload)
    (p : CreateReminderPayload)
    → Firm
        (λ s. K × At (Rebuilt ts base t ps) s)
        (create_reminder (reminder_params t p))
        (λ _ s. K × At (Rebuilt ts base t (ps ++ p ∷ [])) s)
unfolding create_reminder
create_kept K ts base t ps p = Firm-write_checked _ (λ env i s h u s' eq.
    let (r, row, same, more) = inserted (env.gen_uuid i) (reminder_params t p) s u s' eq in
    let (rows, match, here) = h.1.1 in
    (
      h.0,
      (
        same ∙ h.1.0,
        (
          rows ++ r ∷ [],
          AreRowsOf-append t ps rows p r match (env.gen_uuid i, row),
          more ∙ ap (λ z. z ++ r ∷ []) here ∙ append_assoc base rows (r ∷ []),
        ),
      ),
    ))

create-Rebuilt :
    (ts : List Task) (base : List Reminder) (t : ℕ) (ps : List CreateReminderPayload)
    (p : CreateReminderPayload)
    → Firm
        (At (Rebuilt ts base t ps))
        (create_reminder (reminder_params t p))
        (λ _. At (Rebuilt ts base t (ps ++ p ∷ [])))
create-Rebuilt ts base t ps p =
    Firm-mono _ (λ _ s h. h.1) (Firm-pre _ (λ s h. (tt, h)) (create_kept (Unit {0}) ts base t ps p))

-- The loop that stops at an error, as a new task's reminders are made
pub created-Rebuilt :
    (K : Type 0) (ts : List Task) (base : List Reminder) (t : ℕ)
    (done ps : List CreateReminderPayload)
    → Firm
        (λ s. K × At (Rebuilt ts base t done) s)
        (for_each ps (λ r. create_reminder (reminder_params t r)))
        (λ _ s. K × At (Rebuilt ts base t (done ++ ps)) s)
unfolding for_each
created-Rebuilt K ts base t done [] =
    Firm-pure tt (λ s h. (h.0, subst (λ z. At (Rebuilt ts base t z) s) (sym (append-nil done)) h.1))
created-Rebuilt K ts base t done (p ∷ ps) = Firm-bind _ _ (create_kept K ts base t done p) (λ _.
    subst
      (λ z.
        Firm (λ s. K × At (Rebuilt ts base t (done ++ p ∷ [])) s)
          (for_each ps (λ r. create_reminder (reminder_params t r)))
          (λ _ s. K × At (Rebuilt ts base t z) s))
      (append_assoc done (p ∷ []) ps) (created-Rebuilt K ts base t (done ++ p ∷ []) ps))

loop-Rebuilt :
    (ts : List Task) (base : List Reminder) (t : ℕ) (done ps : List CreateReminderPayload)
    → Firm
        (At (Rebuilt ts base t done))
        (for_each ps (λ r. ignore (create_reminder (reminder_params t r))))
        (λ _. At (Rebuilt ts base t (done ++ ps)))
unfolding for_each
loop-Rebuilt ts base t done [] =
    Firm-pure tt (λ s h. subst (λ z. At (Rebuilt ts base t z) s) (sym (append-nil done)) h)
loop-Rebuilt ts base t done (p ∷ ps) =
    Firm-bind _ _ (Firm-ignore _ (create-Rebuilt ts base t done p)) (λ _.
      subst
        (λ z.
          Firm (At (Rebuilt ts base t (done ++ p ∷ [])))
            (for_each ps (λ r. ignore (create_reminder (reminder_params t r))))
            (λ _. At (Rebuilt ts base t z)))
        (append_assoc done (p ∷ []) ps) (loop-Rebuilt ts base t (done ++ p ∷ []) ps))

pub rebuild-Rebuilt :
    (ts : List Task) (base : List Reminder) (t : ℕ) (ps : List CreateReminderPayload)
    → Triple
        (λ s. (s.tasks ≡ ts) × (s.reminders ≡ base))
        (rebuild_reminders t ps)
        (At (Rebuilt ts base t ps))
unfolding rebuild_reminders
rebuild-Rebuilt ts base t ps = Triple-Firm _ (
    Firm-pre _ (λ s h. (h.0, ([], tt, h.1 ∙ sym (append-nil base)))) (loop-Rebuilt ts base t [] ps))
