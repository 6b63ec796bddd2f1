-- ===== src/Tasks/History.antt =====
-- Invariants of the scores over every history of requests and polls, whatever statements fail on
-- the way.
use abhiyan.Prelude.{ℕ, ◌≤◌, List, [], ◌∷◌, ◌++◌, count-append, arith}
use abhiyan.Schema.{EmployeeScore}
use abhiyan.Db.{Env, Db}
use abhiyan.Db.Always.{Always, Always-write_checked}
use abhiyan.Sql.Scores.{Candidate, insert_score_event, score_row}
use abhiyan.Scores.Live.{inserted_score}
use abhiyan.Scores.Record.{missed_event}
use abhiyan.Scores.Completion.{
  OneCompletion, live_completions, is_live_completion, record_approval-OneCompletion,
  record_rejection-OneCompletion, record_reopen-OneCompletion,
}
use abhiyan.Scores.Fair.{
  AllFair, record_approval-Fair, record_rejection-Fair, record_reopen-Fair, missed-Fair,
}
use abhiyan.Tasks.Keeping.{Invariant, On}
use abhiyan.Tasks.Requests.{history-keeps}
use abhiyan.Tasks.Calls.{Event, history}

abbrev AtMostOne : List EmployeeScore → Type 0
AtMostOne es = (t u : ℕ) → live_completions t u es ≤ 1

missed_adds_none :
    (id at : ℕ) (c : Candidate) (es : List EmployeeScore)
    → AtMostOne es
    → AtMostOne (es ++ score_row id (missed_event at c) ∷ [])
missed_adds_none id at c es h t u =
    ground (
      arith,
      h t u,
      count-append (is_live_completion t u) es (score_row id (missed_event at c) ∷ []),
    )

missed-OneCompletion :
    (at : ℕ) (c : Candidate) → Always (On AtMostOne) (insert_score_event (missed_event at c))
unfolding insert_score_event
missed-OneCompletion at c = Always-write_checked _ (λ env i s h x s' eq.
    rw (inserted_score (env.gen_uuid i) (missed_event at c) s x s' eq)
      (missed_adds_none (env.gen_uuid i) at c s.employee_scores h))

OneCompletion-Invariant : Invariant AtMostOne
OneCompletion-Invariant = record {
  approval = record_approval-OneCompletion;
  rejection = record_rejection-OneCompletion;
  reopening = record_reopen-OneCompletion;
  missed = missed-OneCompletion;
}

-- From a database in which no task counts twice for a user, every sequence of new tasks, edits, status changes,
-- submissions, approvals, rejections, reopenings and polls of the worker, with statements failing
-- at any points, leads to a database in which no task counts twice for a user: a task and a user
-- have at most one completion event that is not superseded.
pub history-OneCompletion :
    (env : Env) (es : List Event) (db : Db)
    → OneCompletion db.store
    → OneCompletion (history env es db).store
history-OneCompletion env es db h = history-keeps AtMostOne OneCompletion-Invariant env es db h

Fair-Invariant : Invariant AllFair
Fair-Invariant = record {
  approval = record_approval-Fair;
  rejection = record_rejection-Fair;
  reopening = record_reopen-Fair;
  missed = missed-Fair;
}

-- From a database whose score rows are fair, every sequence of new tasks, edits, status changes,
-- submissions, approvals, rejections, reopenings and polls of the worker, with statements failing
-- at any points, leads to a database whose score rows are fair: an on-time completion has 10 to 15
-- points, a late one 3, and a rejection and a missed deadline none, superseded or not.
pub history-AllFair :
    (env : Env) (es : List Event) (db : Db)
    → AllFair db.store.employee_scores
    → AllFair (history env es db).store.employee_scores
history-AllFair env es db h = history-keeps AllFair Fair-Invariant env es db h
