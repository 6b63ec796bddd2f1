-- ===== src/Scores/Live.antt =====
-- The events of a task and a user that are not superseded, and what superseding them and inserting
-- another leaves of them and of the other users'.
use abhiyan.Prelude.{
  some, ℕ, ◌≡◌, refl, ap, ◌∙◌, true, false, List, [], ◌∷◌, ◌++◌, ◌==◌, ==_iff, filter, arith,
}
use mathlib.Core.List.{append-nil}
use abhiyan.Schema.{Store, EmployeeScore}
use abhiyan.Sql.Scores.{insert_score, ScoreEvent, score_row, is_live_for, supersede}

abbrev pub live : ℕ → ℕ → List EmployeeScore → List EmployeeScore
live t u = filter (is_live_for t u)

pub supersede-none : (t u : ℕ) (es : List EmployeeScore) → live t u (supersede t u es) ≡ []
supersede-none t u [] = refl
supersede-none t u (e ∷ es) = ground (arith, supersede-none t u es)

pub supersede-other :
    (t u v : ℕ) (es : List EmployeeScore)
    → (v == u) ≡ false
    → live t v (supersede t u es) ≡ live t v es
supersede-other t u v [] h = refl
supersede-other t u v (e ∷ es) h = ground (arith, supersede-other t u v es h)

pub live-append :
    (t u : ℕ) (xs ys : List EmployeeScore) → live t u (xs ++ ys) ≡ live t u xs ++ live t u ys
live-append t u [] ys = refl
live-append t u (x ∷ xs) ys = ground (arith, live-append t u xs ys)

refl_test : (n : ℕ) → (n == n) ≡ true
refl_test n = (==_iff n n).1 refl

pub live-own :
    (id : ℕ) (e : ScoreEvent) → live e.task_id e.user_id (score_row id e ∷ []) ≡ score_row id e ∷ []
live-own id e = rw (refl_test e.task_id, refl_test e.user_id)

pub live-others :
    (id t v : ℕ) (e : ScoreEvent) → (v == e.user_id) ≡ false → live t v (score_row id e ∷ []) ≡ []
live-others id t v e h = ground arith

pub inserted_own :
    (id : ℕ) (e : ScoreEvent) (es : List EmployeeScore)
    → live e.task_id e.user_id es ≡ []
    → live e.task_id e.user_id (es ++ score_row id e ∷ []) ≡ score_row id e ∷ []
inserted_own id e es h =
    live-append e.task_id e.user_id es (score_row id e ∷ [])
    ∙ ap (λ z. z ++ live e.task_id e.user_id (score_row id e ∷ [])) h
    ∙ live-own id e

pub inserted_other :
    (id t v : ℕ) (e : ScoreEvent) (es : List EmployeeScore)
    → (v == e.user_id) ≡ false
    → live t v (es ++ score_row id e ∷ []) ≡ live t v es
inserted_other id t v e es h =
    live-append t v es (score_row id e ∷ [])
    ∙ ap (λ z. live t v es ++ z) (live-others id t v e h)
    ∙ append-nil (live t v es)

-- An accepted insert appends the row.
pub inserted_score :
    (id : ℕ) (e : ScoreEvent) (s : Store) (i : ℕ) (s' : Store)
    → insert_score id e s ≡ some (i, s')
    → s'.employee_scores ≡ s.employee_scores ++ score_row id e ∷ []
inserted_score id e s i s' h = ground arith
