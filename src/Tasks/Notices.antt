-- ===== src/Tasks/Notices.antt =====
-- Whom notifyParticipantsWithCard tells, and how, where its transaction commits.
use abhiyan.Prelude.{
  ℕ, String, Bool, true, false, none, some, List, [], ◌∷◌, ◌++◌, ◌≡◌, sym, subst, ◌∙◌, ap,
  Bool-cases, inl, inr,
}
use mathlib.Core.List.{append-nil, append_assoc}
use abhiyan.Schema.{Notification, Store}
use abhiyan.Db.{Env, Db, ok, transaction, for_each}
use abhiyan.Db.Committed.{transaction_committed}
use abhiyan.Db.Firm.{Firm, Firm-pure, Firm-bind, Firm-ignore, Ensures-Firm}
use abhiyan.Db.Statements.{Firm-exec}
use abhiyan.Sql.Participants.{ParticipantRow}
use abhiyan.Sql.Notifications.{notification, create_notification, create_task_card_notification}
use abhiyan.Tasks.Notify.{gets_card, notify_participant, notify_participants_with_card}

-- What an assignee who did not act gets, and what everyone else gets
abbrev pub notice : Bool → ℕ → ℕ → ℕ → ℕ → String → String → String → String → Notification
notice true id user o t bell_title bell_msg card_kind card_msg =
    notification id user o bell_title card_msg (some (t, card_kind))
notice false id user o t bell_title bell_msg card_kind card_msg =
    notification id user o bell_title bell_msg none

module _ (o t actor : ℕ) (bell_title bell_msg card_kind card_msg : String) where
  abbrev pub IsNotice : ParticipantRow → Notification → Type 0
  IsNotice p n =
      (id : ℕ) × (n ≡ notice (gets_card actor p) id p.id o t bell_title bell_msg card_kind card_msg)

  abbrev pub AreNotices : List ParticipantRow → List Notification → Type 0
  AreNotices [] [] = Unit
  AreNotices [] (n ∷ ns) = ⊥
  AreNotices (p ∷ ps) [] = ⊥
  AreNotices (p ∷ ps) (n ∷ ns) = IsNotice p n × AreNotices ps ns

  AreNotices-append :
      (ps : List ParticipantRow) (ns : List Notification) (p : ParticipantRow) (n : Notification)
      → AreNotices ps ns
      → IsNotice p n
      → AreNotices (ps ++ p ∷ []) (ns ++ n ∷ [])
  AreNotices-append [] [] p n h k = (k, tt)
  AreNotices-append [] (m ∷ ns) p n h k = elim h [ ]
  AreNotices-append (q ∷ ps) [] p n h k = elim h [ ]
  AreNotices-append (q ∷ ps) (m ∷ ns) p n h k = (h.0, AreNotices-append ps ns p n h.1 k)

  -- `base`, and then a notice for each participant
  abbrev Told : List Notification → List ParticipantRow → Store → Type 0
  Told base ps s = (ns : List Notification) × AreNotices ps ns × (s.notifications ≡ base ++ ns)

  tell :
      (base : List Notification) (ps : List ParticipantRow) (p : ParticipantRow) (s : Store)
      (n : Notification)
      → Told base ps s
      → IsNotice p n
      → Told base (ps ++ p ∷ []) (record s { notifications = s.notifications ++ n ∷ [] })
  tell base ps p s n (ns, are, here) k = (
    ns ++ n ∷ [],
    AreNotices-append ps ns p n are k,
    ap (λ z. z ++ n ∷ []) here ∙ append_assoc base ns (n ∷ []),
  )

  notify_one :
      (base : List Notification) (ps : List ParticipantRow) (p : ParticipantRow)
      → Firm
          (Told base ps)
          (notify_participant o t actor bell_title bell_msg card_kind card_msg p)
          (λ _. Told base (ps ++ p ∷ []))
  unfolding notify_participant create_notification create_task_card_notification
  notify_one base ps p = elim (Bool-cases (gets_card actor p)) [
    | inl card ↦
        rw card (
          Firm-ignore _ (Firm-exec _ (λ env i s h. tell base ps p s _ h (env.gen_uuid i, rw card))))
    | inr bell ↦
        rw bell (
          Firm-ignore _ (Firm-exec _ (λ env i s h. tell base ps p s _ h (env.gen_uuid i, rw bell))))
  ]

  notify_all :
      (base : List Notification) (done ps : List ParticipantRow)
      → Firm
          (Told base done)
          (for_each ps (notify_participant o t actor bell_title bell_msg card_kind card_msg))
          (λ _. Told base (done ++ ps))
  unfolding for_each
  notify_all base done [] =
      Firm-pure tt (λ s h. subst (λ z. Told base z s) (sym (append-nil done)) h)
  notify_all base done (p ∷ ps) = Firm-bind _ _ (notify_one base done p) (λ _.
      subst
        (λ z.
          Firm (Told base (done ++ p ∷ []))
            (for_each ps (notify_participant o t actor bell_title bell_msg card_kind card_msg))
            (λ _. Told base z))
        (append_assoc done (p ∷ []) ps) (notify_all base (done ++ p ∷ []) ps))

-- Where the transaction commits, every participant has got one notification, in order, though the
-- errors of the inserts are dropped: an assignee other than the one who acts a card of the task,
-- and everyone else (a subscriber, or the one who acts) the bell's text without a card.
pub notify_participants-AreNotices :
    (o t actor : ℕ) (ps : List ParticipantRow) (bell_title bell_msg card_kind card_msg : String)
    (env : Env) (db : Db) {x : Unit {0}}
    → (transaction
        (notify_participants_with_card o t actor ps bell_title bell_msg card_kind card_msg)
        env
        db).0
      ≡ ok x
    → (ns : List Notification) × AreNotices o t actor bell_title bell_msg card_kind card_msg ps ns
      × ((transaction
            (notify_participants_with_card o t actor ps bell_title bell_msg card_kind card_msg)
            env
            db).1.store.notifications
          ≡ db.store.notifications ++ ns)
unfolding notify_participants_with_card
notify_participants-AreNotices o t actor ps bell_title bell_msg card_kind card_msg env db h =
    transaction_committed
      (λ _. Told o t actor bell_title bell_msg card_kind card_msg db.store.notifications ps) _ env
      db
      (Ensures-Firm _
        (notify_all o t actor bell_title bell_msg card_kind card_msg db.store.notifications [] ps))
      ([], tt, sym (append-nil db.store.notifications)) h
