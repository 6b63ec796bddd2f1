-- ===== src/Scores/Award.antt =====
-- What a loop over the assignees leaves of the live events, where the transaction commits and each
-- round supersedes the events of its own assignee and inserts one, or none.
use abhiyan.Prelude.{
  ℕ, ◌≡◌, sym, subst, ap, ◌∙◌, Bool-cases, inl, inr, false, List, [], ◌∷◌, ◌==◌, ==_iff, All,
}
use abhiyan.Schema.{EmployeeScore, Store}
use abhiyan.Db.{M, ◌>>=◌, for_each}
use abhiyan.Db.Firm.{Firm, Firm-bind, Firm-pre, Firm-mono, Firm-for_each-All}
use abhiyan.Db.Statements.{Firm-exec, Firm-write_checked, Firm-select}
use abhiyan.Sql.Participants.{AssigneeRow, assignee_rows, get_task_assignees_with_context}
use abhiyan.Sql.Scores.{ScoreEvent, score_row, supersede_score_events, insert_score_event}
use abhiyan.Scores.Live.{
  inserted_score, live, supersede-none, supersede-other, inserted_own, inserted_other,
}

-- A statement on the live events of a task and a user
abbrev pub LiveAre : (List EmployeeScore → Type 0) → ℕ → ℕ → Store → Type 0
LiveAre L t u s = L (live t u s.employee_scores)

-- One live event, and a good one
abbrev pub Only : (EmployeeScore → Type 0) → List EmployeeScore → Type 0
Only Good es = (e : EmployeeScore) × (es ≡ e ∷ []) × Good e

abbrev pub NoEvents : List EmployeeScore → Type 0
NoEvents es = es ≡ []

-- `K` is what is known of the values that the code has read, which no statement changes.
module _ (K : Type 0) where
  pub supersede_own :
      (t u : ℕ) → Firm (λ s. K) (supersede_score_events t u) (λ _ s. K × LiveAre NoEvents t u s)
  unfolding supersede_score_events
  supersede_own t u = Firm-exec _ (λ env i s h. (h, supersede-none t u s.employee_scores))

  pub supersede_frame :
      (L : List EmployeeScore → Type 0) (t u v : ℕ)
      → (v == u) ≡ false
      → Firm (λ s. K × LiveAre L t v s) (supersede_score_events t u) (λ _ s. K × LiveAre L t v s)
  unfolding supersede_score_events
  supersede_frame L t u v d =
      Firm-exec _
        (λ env i s h. (h.0, subst L (sym (supersede-other t u v s.employee_scores d)) h.1))

  pub insert_own :
      (Good : EmployeeScore → Type 0) (e : ScoreEvent)
      → ((id : ℕ) → Good (score_row id e))
      → Firm
          (λ s. K × LiveAre NoEvents e.task_id e.user_id s)
          (insert_score_event e)
          (λ _ s. K × LiveAre (Only Good) e.task_id e.user_id s)
  unfolding insert_score_event
  insert_own Good e good = Firm-write_checked _ (λ env i s h x s' eq. (
    h.0,
    (
      score_row (env.gen_uuid i) e,
      ap (live e.task_id e.user_id) (inserted_score (env.gen_uuid i) e s x s' eq)
          ∙ inserted_own (env.gen_uuid i) e s.employee_scores h.1,
      good (env.gen_uuid i),
    ),
  ))

  pub insert_frame :
      (L : List EmployeeScore → Type 0) (t v : ℕ) (e : ScoreEvent)
      → (v == e.user_id) ≡ false
      → Firm (λ s. K × LiveAre L t v s) (insert_score_event e) (λ _ s. K × LiveAre L t v s)
  unfolding insert_score_event
  insert_frame L t v e d = Firm-write_checked _ (λ env i s h x s' eq.
      let same =
        ap (live t v) (inserted_score (env.gen_uuid i) e s x s' eq)
        ∙ inserted_other (env.gen_uuid i) t v e s.employee_scores d in
      (h.0, subst L (sym same) h.1))

-- A round of a loop settles the live events of its own assignee, and touches no other's.
pub record Settles (L : List EmployeeScore → Type 0) (t : ℕ) (K : Type 0)
    (body : AssigneeRow → M (Unit {0})) : Type 0 where
  pub own : (a : AssigneeRow) → Firm (λ s. K) (body a) (λ _ s. K × LiveAre L t a.user_id s)
  pub frame :
      (a : AssigneeRow) (v : ℕ)
      → (v == a.user_id) ≡ false
      → Firm (λ s. K × LiveAre L t v s) (body a) (λ _ s. K × LiveAre L t v s)

abbrev pub AllLive : (List EmployeeScore → Type 0) → ℕ → List AssigneeRow → Store → Type 0
AllLive L t rows s = All (λ a. LiveAre L t a.user_id s) rows

module _ (L : List EmployeeScore → Type 0) (t : ℕ) (K : Type 0) (body : AssigneeRow → M (Unit {0}))
    (w : Settles L t K body) where
  keeps_other :
      (x y : AssigneeRow)
      → Firm (λ s. K × LiveAre L t y.user_id s) (body x) (λ _ s. K × LiveAre L t y.user_id s)
  keeps_other x y = elim (Bool-cases (y.user_id == x.user_id)) [
    | inl same ↦
        let e : x.user_id ≡ y.user_id = sym ((==_iff y.user_id x.user_id).0 same) in
        Firm-pre (body x) (λ s h. h.0)
          (subst (λ v. Firm (λ s. K) (body x) (λ _ s. K × LiveAre L t v s)) e (w.own x))
    | inr other ↦ w.frame x y.user_id other
  ]

  settled :
      (rows : List AssigneeRow) → Firm (λ s. K) (for_each rows body) (λ _ s. K × AllLive L t rows s)
  settled rows =
      Firm-for_each-All {P = λ s. K} (λ a. LiveAre L t a.user_id) rows body w.own keeps_other

-- The loop over the assignees that the transaction reads
pub over_assignees_settled :
    (K : Type 0) (L : List EmployeeScore → Type 0) (t : ℕ) (body : AssigneeRow → M (Unit {0}))
    (rows : List AssigneeRow)
    → ((K : Type 0) → Settles L t K body)
    → Firm
        (λ s. K × (assignee_rows t s ≡ rows))
        (get_task_assignees_with_context t >>= λ found. for_each found body)
        (λ _ s. K × AllLive L t rows s)
unfolding get_task_assignees_with_context
over_assignees_settled K L t body rows w =
    Firm-bind (get_task_assignees_with_context t) (λ found. for_each found body) (Firm-select _)
      (λ found.
        Firm-mono _ (λ _ s h. (h.0.0, subst (λ r. AllLive L t r s) h.0.1 h.1))
          (Firm-pre _ (λ s h. (h.0.0, h.1.2 ∙ h.0.1))
            (settled L t (K × (found ≡ rows)) body (w _) found)))
