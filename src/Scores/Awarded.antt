-- ===== src/Scores/Awarded.antt =====
-- What the loops of Scores/Record.antt leave of the live events, where the transaction commits.
use abhiyan.Prelude.{ℕ, ◌≡◌, refl, sym, subst, ap, ◌∙◌, Option, none, some, List}
use abhiyan.Schema.Enums.{rejection}
use abhiyan.Schema.{EmployeeScore, Store, Task}
use abhiyan.Db.Firm.{Firm, Firm-pure, Firm-bind, Firm-pre, Firm-mono, Firm-attempt_effect}
use abhiyan.Db.Statements.{Firm-select_one, Firm-now}
use abhiyan.Sql.Tasks.{get_task_by_id, task_by_id}
use abhiyan.Sql.Participants.{AssigneeRow, assignee_rows}
use abhiyan.Scores.Points.{calculate_points}
use abhiyan.Scores.Record.{
  approve_assignee, approve_assignees, record_approval, reject_assignee, reject_assignees,
  record_rejection, reopen_assignee, record_reopen, approval_event, rejection_event,
}
use abhiyan.Scores.Award.{
  Only, NoEvents, Settles, AllLive, over_assignees_settled, supersede_own, supersede_frame,
  insert_own, insert_frame,
}

-- What an approval leaves of the live events of an assignee: one, whose type and points are those
-- of calculate_points at the time of the event.
abbrev pub IsAward : ℕ → ℕ → EmployeeScore → Type 0
IsAward due created e =
    (calculate_points e.event_at due created ≡ (e.event_type, e.points_awarded))
    × (e.due_date_snapshot ≡ some due)

abbrev pub IsRejection : ℕ → EmployeeScore → Type 0
IsRejection due e =
    (e.event_type ≡ rejection) × (e.points_awarded ≡ 0) × (e.due_date_snapshot ≡ some due)

approve-Settles :
    (t at due : ℕ) (task : Task) (K : Type 0)
    → Settles (Only (IsAward due task.created_at)) t K (approve_assignee t at due task)
unfolding approve_assignee
approve-Settles t at due task K = record {
  own = λ a. Firm-bind _ _ (Firm-attempt_effect _ (supersede_own K t a.user_id)) (λ _.
      Firm-bind _ _
        (insert_own K (IsAward due task.created_at) (approval_event t at due task a)
          (λ id. (refl, refl)))
        (λ _. Firm-pure tt (λ s h. h)));
  frame = λ a v d.
      Firm-bind _ _
        (Firm-attempt_effect _
          (supersede_frame K (Only (IsAward due task.created_at)) t a.user_id v d))
        (λ _.
          Firm-bind _ _
            (insert_frame K (Only (IsAward due task.created_at)) t v
              (approval_event t at due task a) d)
            (λ _. Firm-pure tt (λ s h. h)));
}

reject-Settles :
    (t due : ℕ) (K : Type 0) → Settles (Only (IsRejection due)) t K (reject_assignee t due)
unfolding reject_assignee
reject-Settles t due K = record {
  own = λ a. Firm-bind _ _ (Firm-attempt_effect _ (supersede_own K t a.user_id)) (λ _.
      Firm-bind _ _ Firm-now (λ at.
        Firm-bind _ _
          (insert_own K (IsRejection due) (rejection_event t due at a) (λ id. (refl, refl, refl)))
          (λ _. Firm-pure tt (λ s h. h))));
  frame = λ a v d.
      Firm-bind _ _
        (Firm-attempt_effect _ (supersede_frame K (Only (IsRejection due)) t a.user_id v d))
        (λ _. Firm-bind _ _ Firm-now (λ at.
          Firm-bind _ _ (insert_frame K (Only (IsRejection due)) t v (rejection_event t due at a) d)
            (λ _. Firm-pure tt (λ s h. h))));
}

reopen-Settles : (t : ℕ) (K : Type 0) → Settles NoEvents t K (reopen_assignee t)
unfolding reopen_assignee
reopen-Settles t K = record {
  own = λ a.
      Firm-bind _ _ (Firm-attempt_effect _ (supersede_own K t a.user_id))
        (λ _. Firm-pure tt (λ s h. h));
  frame = λ a v d.
      Firm-bind _ _ (Firm-attempt_effect _ (supersede_frame K NoEvents t a.user_id v d))
        (λ _. Firm-pure tt (λ s h. h));
}

some_injective : {A : Type 0} {a b : A} → some a ≡ some b → a ≡ b
some_injective h = cc

module _ (t : ℕ) (task : Task) (due : ℕ) (rows : List AssigneeRow)
    (d : task.due_date ≡ some due) where
  abbrev Found : Task → Option ℕ → Type 0
  Found found o = (found.created_at ≡ task.created_at) × (o ≡ some due)

  approve_assignees_settle :
      (at : ℕ) (found : Task) (o : Option ℕ)
      → Firm
          (λ s. Found found o × (assignee_rows t s ≡ rows))
          (approve_assignees t at found o)
          (λ _. AllLive (Only (IsAward due task.created_at)) t rows)
  unfolding approve_assignees
  approve_assignees_settle at found none = Firm-pure tt (λ s h. let e = h.0.1 in cc)
  approve_assignees_settle at found (some due') =
      Firm-mono _
        (λ _ s h.
          subst (λ x. AllLive (Only (IsAward due x)) t rows s) h.0.0
            (subst (λ x. AllLive (Only (IsAward x found.created_at)) t rows s)
              (some_injective h.0.1) h.1))
        (over_assignees_settled (Found found (some due')) _ t (approve_assignee t at due' found)
          rows (approve-Settles t at due' found))

  reject_assignees_settle :
      (found : Task) (o : Option ℕ)
      → Firm
          (λ s. Found found o × (assignee_rows t s ≡ rows))
          (reject_assignees t o)
          (λ _. AllLive (Only (IsRejection due)) t rows)
  unfolding reject_assignees
  reject_assignees_settle found none = Firm-pure tt (λ s h. let e = h.0.1 in cc)
  reject_assignees_settle found (some due') =
      Firm-mono _
        (λ _ s h. subst (λ x. AllLive (Only (IsRejection x)) t rows s) (some_injective h.0.1) h.1)
        (over_assignees_settled (Found found (some due')) _ t (reject_assignee t due') rows
          (reject-Settles t due'))

  -- The task and its assignees, as the transaction reads them
  abbrev pub Reads : Store → Type 0
  Reads s = (task_by_id t s ≡ some task) × (assignee_rows t s ≡ rows)

  task_read :
      (found : Task) (s : Store)
      → Reads s × (task_by_id t s ≡ some found)
      → Found found found.due_date × (assignee_rows t s ≡ rows)
  task_read found s h =
      let e : task ≡ found = some_injective (sym h.0.0 ∙ h.1) in
      ((ap (λ x. x.created_at) (sym e), ap (λ x. x.due_date) (sym e) ∙ d), h.0.1)

  pub record_approval_settles :
      (at : ℕ)
      → Firm Reads (record_approval t at) (λ _. AllLive (Only (IsAward due task.created_at)) t rows)
  unfolding record_approval get_task_by_id
  record_approval_settles at =
      Firm-bind _ _ (Firm-select_one _ (λ s h. (task, h.0)))
        (λ found. Firm-pre _ (task_read found) (approve_assignees_settle at found found.due_date))

  pub record_rejection_settles :
      Firm Reads (record_rejection t) (λ _. AllLive (Only (IsRejection due)) t rows)
  unfolding record_rejection get_task_by_id
  record_rejection_settles =
      Firm-bind _ _ (Firm-select_one _ (λ s h. (task, h.0)))
        (λ found. Firm-pre _ (task_read found) (reject_assignees_settle found found.due_date))

pub record_reopen_settles :
    (t : ℕ) (rows : List AssigneeRow)
    → Firm (λ s. assignee_rows t s ≡ rows) (record_reopen t) (λ _. AllLive NoEvents t rows)
unfolding record_reopen
record_reopen_settles t rows =
    Firm-mono _ (λ _ s h. h.1)
      (Firm-pre _ (λ s h. (tt, h))
        (over_assignees_settled Unit NoEvents t (reopen_assignee t) rows (reopen-Settles t)))
