-- ===== src/Scores/Completion.antt =====
-- No task is paid for twice: the invariant that a task and a user have at most one completion
-- that is not superseded, kept by what Scores/Record.antt writes inside a transaction.
use abhiyan.Prelude.{
  ℕ, ◌≤◌, ◌≡◌, refl, Bool, ◌&&◌, Option, none, some, List, [], ◌∷◌, ◌++◌, count, count-append,
  arith,
}
use abhiyan.Schema.Enums.{is_completion}
use abhiyan.Schema.{EmployeeScore, Store, Task}
use abhiyan.Db.{M, attempt, pure, ◌>>=◌, for_each, now}
use abhiyan.Db.Triples.{Keeps, Keeps-bind, Keeps-select, Keeps-select_one, Keeps-pure}
use abhiyan.Db.Firm.{Firm, Firm-pure, Firm-bind, Firm-attempt_effect, Firm-for_each, Triple-Firm}
use abhiyan.Db.Statements.{Firm-exec, Firm-write_checked, Firm-now}
use abhiyan.Sql.Tasks.{get_task_by_id}
use abhiyan.Sql.Participants.{AssigneeRow, get_task_assignees_with_context}
use abhiyan.Sql.Scores.{
  ScoreEvent, score_row, is_live_for, supersede, supersede_score_events, insert_score_event,
}
use abhiyan.Scores.Live.{inserted_score}
use abhiyan.Scores.Record.{
  approve_assignee, approve_assignees, record_approval, reject_assignee, reject_assignees,
  record_rejection, reopen_assignee, record_reopen, approval_event, rejection_event,
}

abbrev pub is_live_completion : ℕ → ℕ → EmployeeScore → Bool
is_live_completion t u e = is_live_for t u e && is_completion e.event_type

abbrev pub live_completions : ℕ → ℕ → List EmployeeScore → ℕ
live_completions t u = count (is_live_completion t u)

abbrev pub OneCompletion : Store → Type 0
OneCompletion s = (t u : ℕ) → live_completions t u s.employee_scores ≤ 1

-- The same, and nothing live for one task and user.
abbrev Cleared : ℕ → ℕ → Store → Type 0
Cleared t u s = OneCompletion s × (live_completions t u s.employee_scores ≡ 0)

supersede_clears : (t u : ℕ) (es : List EmployeeScore) → live_completions t u (supersede t u es) ≡ 0
supersede_clears t u [] = refl
supersede_clears t u (e ∷ es) = ground (arith, supersede_clears t u es)

supersede_le :
    (t u t' u' : ℕ) (es : List EmployeeScore)
    → live_completions t' u' (supersede t u es) ≤ live_completions t' u' es
supersede_le t u t' u' [] = omega arith
supersede_le t u t' u' (e ∷ es) = ground (arith, supersede_le t u t' u' es)

supersede-Cleared : (t u : ℕ) → Firm OneCompletion (supersede_score_events t u) (λ _. Cleared t u)
unfolding supersede_score_events
supersede-Cleared t u = Firm-exec _ (λ env i s h. (
  (λ t' u'. omega (arith, h t' u', supersede_le t u t' u' s.employee_scores)),
  supersede_clears t u s.employee_scores,
))

one_more :
    (e : EmployeeScore) (es : List EmployeeScore) (t u : ℕ)
    → live_completions t u es ≤ 1
    → live_completions e.task_id e.user_id es ≡ 0
    → live_completions t u (es ++ e ∷ []) ≤ 1
one_more e es t u h z = ground (arith, count-append (is_live_completion t u) es (e ∷ []))

insert-OneCompletion :
    (e : ScoreEvent)
    → Firm (Cleared e.task_id e.user_id) (insert_score_event e) (λ _. OneCompletion)
unfolding insert_score_event
insert-OneCompletion e = Firm-write_checked _ (λ env i s h id s' eq t u.
    let row = score_row (env.gen_uuid i) e in
    let more = one_more row s.employee_scores t u (h.0 t u) h.1 in
    rw (inserted_score (env.gen_uuid i) e s id s' eq) more)

supersede_then :
    {B : Type 0} (t u : ℕ) (k : M B)
    → Firm (Cleared t u) k (λ _. OneCompletion)
    → Firm OneCompletion (attempt (supersede_score_events t u) >>= λ _. k) (λ _. OneCompletion)
supersede_then t u k f =
    Firm-bind (attempt (supersede_score_events t u)) (λ _. k)
      (Firm-attempt_effect (supersede_score_events t u) (supersede-Cleared t u)) (λ _. f)

insert_end :
    (e : ScoreEvent)
    → Firm {0}
        (Cleared e.task_id e.user_id)
        (insert_score_event e >>= λ _. pure tt)
        (λ _. OneCompletion)
insert_end e =
    Firm-bind (insert_score_event e) (λ _. pure tt) (insert-OneCompletion e)
      (λ _. Firm-pure tt (λ s h. h))

approve_assignee-OneCompletion :
    (t at due : ℕ) (task : Task) (a : AssigneeRow)
    → Firm OneCompletion (approve_assignee t at due task a) (λ _. OneCompletion)
unfolding approve_assignee
approve_assignee-OneCompletion t at due task a =
    supersede_then t a.user_id _ (insert_end (approval_event t at due task a))

reject_assignee-OneCompletion :
    (t due : ℕ) (a : AssigneeRow)
    → Firm OneCompletion (reject_assignee t due a) (λ _. OneCompletion)
unfolding reject_assignee
reject_assignee-OneCompletion t due a =
    supersede_then t a.user_id _
      (Firm-bind now _ Firm-now (λ at. insert_end (rejection_event t due at a)))

reopen_assignee-OneCompletion :
    (t : ℕ) (a : AssigneeRow) → Firm OneCompletion (reopen_assignee t a) (λ _. OneCompletion)
unfolding reopen_assignee
reopen_assignee-OneCompletion t a = supersede_then t a.user_id _ (Firm-pure tt (λ s h. h.0))

over_assignees :
    (t : ℕ) (body : AssigneeRow → M (Unit {0}))
    → ((a : AssigneeRow) → Firm OneCompletion (body a) (λ _. OneCompletion))
    → Keeps OneCompletion (get_task_assignees_with_context t >>= λ rows. for_each rows body)
unfolding get_task_assignees_with_context
over_assignees t body f =
    Keeps-bind (get_task_assignees_with_context t) (λ rows. for_each rows body) (Keeps-select _)
      (λ rows. Triple-Firm (for_each rows body) (Firm-for_each rows body f))

approve_assignees-OneCompletion :
    (t at : ℕ) (task : Task) (due : Option ℕ)
    → Keeps OneCompletion (approve_assignees t at task due)
unfolding approve_assignees
approve_assignees-OneCompletion t at task none = Keeps-pure tt
approve_assignees-OneCompletion t at task (some due) =
    over_assignees t (approve_assignee t at due task) (approve_assignee-OneCompletion t at due task)

pub record_approval-OneCompletion : (t at : ℕ) → Keeps OneCompletion (record_approval t at)
unfolding record_approval get_task_by_id
record_approval-OneCompletion t at =
    Keeps-bind (get_task_by_id t) _ (Keeps-select_one _)
      (λ task. approve_assignees-OneCompletion t at task task.due_date)

reject_assignees-OneCompletion :
    (t : ℕ) (due : Option ℕ) → Keeps OneCompletion (reject_assignees t due)
unfolding reject_assignees
reject_assignees-OneCompletion t none = Keeps-pure tt
reject_assignees-OneCompletion t (some due) =
    over_assignees t (reject_assignee t due) (reject_assignee-OneCompletion t due)

pub record_rejection-OneCompletion : (t : ℕ) → Keeps OneCompletion (record_rejection t)
unfolding record_rejection get_task_by_id
record_rejection-OneCompletion t =
    Keeps-bind (get_task_by_id t) _ (Keeps-select_one _)
      (λ task. reject_assignees-OneCompletion t task.due_date)

pub record_reopen-OneCompletion : (t : ℕ) → Keeps OneCompletion (record_reopen t)
unfolding record_reopen
record_reopen-OneCompletion t =
    over_assignees t (reopen_assignee t) (reopen_assignee-OneCompletion t)
