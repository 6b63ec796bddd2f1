-- ===== src/Scores/Fair.antt =====
-- What the score service ever writes is fair: the points of every event are those that its type
-- allows, a statement kept by every write of Scores/Record.antt.
use abhiyan.Prelude.{
  ℕ, ◌≤◌, ◌≡◌, refl, inl, inr, Bool, true, false, Option, none, some, List, [], ◌∷◌, ◌++◌, All,
  if◌then◌else◌,
}
use abhiyan.Schema.Enums.{
  ScoreEventType, on_time_completion, late_completion, rejection, missed_deadline,
}
use abhiyan.Schema.{EmployeeScore, Store, Task}
use abhiyan.Db.Always.{Always, Always-write_checked}
use abhiyan.Db.Triples.{Keeps, keeps_rules, Keeps-pure, Keeps-write_checked, Triple-exec}
use abhiyan.Sql.Tasks.{get_task_by_id}
use abhiyan.Sql.Participants.{AssigneeRow, get_task_assignees_with_context}
use abhiyan.Sql.Scores.{
  ScoreEvent, Candidate, score_row, is_live_for, superseded_row, supersede, supersede_score_events,
  insert_score_event,
}
use abhiyan.Scores.Points.{calculate_points, calculate_points_bounds}
use abhiyan.Scores.Live.{inserted_score}
use abhiyan.Scores.Record.{
  approve_assignee, approve_assignees, record_approval, reject_assignee, reject_assignees,
  record_rejection, reopen_assignee, record_reopen, approval_event, rejection_event, missed_event,
}

-- 10 to 15 points on time, 3 late, and none for a rejection or a missed deadline
abbrev pub Allows : ScoreEventType → ℕ → Type 0
Allows on_time_completion points = (10 ≤ points) × (points ≤ 15)
Allows late_completion points = points ≡ 3
Allows rejection points = points ≡ 0
Allows missed_deadline points = points ≡ 0

abbrev pub IsFair : EmployeeScore → Type 0
IsFair e = Allows e.event_type e.points_awarded

abbrev pub AllFair : List EmployeeScore → Type 0
AllFair = All IsFair

abbrev Fair : Store → Type 0
Fair s = AllFair s.employee_scores

append-AllFair :
    (es : List EmployeeScore) (e : EmployeeScore) → AllFair es → IsFair e → AllFair (es ++ e ∷ [])
append-AllFair [] e h k = (k, tt)
append-AllFair (x ∷ es) e h k = (h.0, append-AllFair es e h.1 k)

supersede-IsFair :
    (b : Bool) (e : EmployeeScore) → IsFair e → IsFair (if b then superseded_row e else e)
supersede-IsFair true e h = h
supersede-IsFair false e h = h

supersede-AllFair : (t u : ℕ) (es : List EmployeeScore) → AllFair es → AllFair (supersede t u es)
supersede-AllFair t u [] h = tt
supersede-AllFair t u (e ∷ es) h =
    (supersede-IsFair (is_live_for t u e) e h.0, supersede-AllFair t u es h.1)

insert-Fair :
    (e : ScoreEvent) → Allows e.event_type e.points_awarded → Keeps Fair (insert_score_event e)
unfolding insert_score_event
insert-Fair e k = Keeps-write_checked _ (λ env t s h i s' eq.
    rw (inserted_score (env.gen_uuid t) e s i s' eq)
      (append-AllFair s.employee_scores (score_row (env.gen_uuid t) e) h k))

calculated :
    (approved due created : ℕ)
    → let (kind, points) = calculate_points approved due created in Allows kind points
calculated approved due created = elim (calculate_points_bounds approved due created) [
  | inl late ↦ rw late.1 late.2
  | inr early ↦ rw early.1 (early.2, early.3)
]

supersede-Fair : (t u : ℕ) → Keeps Fair (supersede_score_events t u)
unfolding supersede_score_events
supersede-Fair t u = Triple-exec _ (λ env i s h. supersede-AllFair t u s.employee_scores h)

approval-Fair :
    (t at due : ℕ) (task : Task) (a : AssigneeRow)
    → Keeps Fair (insert_score_event (approval_event t at due task a))
approval-Fair t at due task a =
    insert-Fair (approval_event t at due task a) (calculated at due task.created_at)

rejection-Fair :
    (t due at : ℕ) (a : AssigneeRow) → Keeps Fair (insert_score_event (rejection_event t due at a))
rejection-Fair t due at a = insert-Fair (rejection_event t due at a) refl

approve_assignee-Fair :
    (t at due : ℕ) (task : Task) (a : AssigneeRow) → Keeps Fair (approve_assignee t at due task a)
unfolding approve_assignee
approve_assignee-Fair t at due task a = search (keeps_rules, supersede-Fair, approval-Fair)

reject_assignee-Fair : (t due : ℕ) (a : AssigneeRow) → Keeps Fair (reject_assignee t due a)
unfolding reject_assignee
reject_assignee-Fair t due a = search (keeps_rules, supersede-Fair, rejection-Fair)

reopen_assignee-Fair : (t : ℕ) (a : AssigneeRow) → Keeps Fair (reopen_assignee t a)
unfolding reopen_assignee
reopen_assignee-Fair t a = search (keeps_rules, supersede-Fair)

approve_assignees-Fair :
    (t at : ℕ) (task : Task) (due : Option ℕ) → Keeps Fair (approve_assignees t at task due)
unfolding approve_assignees get_task_assignees_with_context
approve_assignees-Fair t at task none = Keeps-pure tt
approve_assignees-Fair t at task (some due) = search (keeps_rules, approve_assignee-Fair)

pub record_approval-Fair : (t at : ℕ) → Keeps Fair (record_approval t at)
unfolding record_approval get_task_by_id
record_approval-Fair t at = search (keeps_rules, approve_assignees-Fair)

reject_assignees-Fair : (t : ℕ) (due : Option ℕ) → Keeps Fair (reject_assignees t due)
unfolding reject_assignees get_task_assignees_with_context
reject_assignees-Fair t none = Keeps-pure tt
reject_assignees-Fair t (some due) = search (keeps_rules, reject_assignee-Fair)

pub record_rejection-Fair : (t : ℕ) → Keeps Fair (record_rejection t)
unfolding record_rejection get_task_by_id
record_rejection-Fair t = search (keeps_rules, reject_assignees-Fair)

pub record_reopen-Fair : (t : ℕ) → Keeps Fair (record_reopen t)
unfolding record_reopen get_task_assignees_with_context
record_reopen-Fair t = search (keeps_rules, reopen_assignee-Fair)

pub missed-Fair : (at : ℕ) (c : Candidate) → Always Fair (insert_score_event (missed_event at c))
unfolding insert_score_event
missed-Fair at c = Always-write_checked _ (λ env t s h i s' eq.
    rw (inserted_score (env.gen_uuid t) (missed_event at c) s i s' eq)
      (append-AllFair s.employee_scores (score_row (env.gen_uuid t) (missed_event at c)) h refl))
