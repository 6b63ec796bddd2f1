-- ===== src/Scores/Pages.antt =====
-- A page of a user's score events, and the live events it is of, described apart from the queries.
use abhiyan.Sql.Tasks.{team_by_id, task_by_id}
use abhiyan.Sql.Leaderboards.{points_of, is_on_time}
use abhiyan.Prelude.{
  some, none, Option, ℕ, zero, suc, ◌+◌, ◌-◌, ◌≤◌, min, String, Bool, true, false, ◌&&◌, ◌||◌, not,
  List, [], ◌∷◌, ◌++◌, ◌==◌, leb, ◌≡◌, refl, ap, filter, count, length, join, str_eq, Bool-cases,
  inl, inr, arith,
}
use abhiyan.Schema.Enums.{
  is_missed, ScoreEventType, on_time_completion, late_completion, missed_deadline, rejection,
}
use abhiyan.Schema.{Task, Team, EmployeeScore, Store}
use abhiyan.Text.{is_blank}
use abhiyan.Sql.Breakdowns.{
  is_rejection, is_late, breakdown_of, Breakdown, EventRow, event_row, insert_event, sort_events,
  limited, offset_by, counted_events,
}

-- Of the teams that the request is of: all, or the one whose id it gives
abbrev of_request : (ℕ → String) → String → ℕ → Bool
of_request print team i = str_eq team "" || str_eq (print i) team

-- Not superseded
abbrev is_live : EmployeeScore → Bool
is_live e = elim e.superseded [ false ↦ true | true ↦ false ]

abbrev pub live_events : (ℕ → String) → ℕ → ℕ → String → Store → List EmployeeScore
live_events print u o team s =
    filter (λ e. is_live e && of_request print team e.team_id && e.org_id == o && e.user_id == u)
      s.employee_scores

pub counted_lem :
    (print : ℕ → String) (u o : ℕ) (team : String) (s : Store)
    → counted_events print u o team s ≡ live_events print u o team s
counted_lem print u o team s =
    ap {A = EmployeeScore → Bool} (λ p. filter p s.employee_scores) (λ i e. counts e i)
  where
    counts :
        (e : EmployeeScore)
        → ((e.user_id == u)
            && (e.org_id == o)
            && not e.superseded
            && (is_blank team || str_eq (print e.team_id) team))
          ≡ (is_live e && of_request print team e.team_id && e.org_id == o && e.user_id == u)
    counts e = ground arith

-- How many points the events have, and how many are of a kind
abbrev pub sum_points : List EmployeeScore → ℕ
sum_points [] = 0
sum_points (e ∷ es) = sum_points es + e.points_awarded

abbrev pub is_kind : ScoreEventType → ScoreEventType → Bool
is_kind on_time_completion on_time_completion = true
is_kind late_completion late_completion = true
is_kind missed_deadline missed_deadline = true
is_kind rejection rejection = true
is_kind k t = false

abbrev pub kind_count : ScoreEventType → List EmployeeScore → ℕ
kind_count k = count (λ e. is_kind k e.event_type)

-- Newest first
abbrev pub DownFrom : ℕ → List EventRow → Type 0
DownFrom at [] = Unit
DownFrom at (r ∷ rs) = (r.score.event_at ≤ at) × DownFrom r.score.event_at rs

abbrev pub IsNewestFirst : List EventRow → Type 0
IsNewestFirst [] = Unit
IsNewestFirst (r ∷ rs) = DownFrom r.score.event_at rs

-- The rows of the events whose task and team there are, with the title and the name
abbrev titled : EmployeeScore → Option Task → Option Team → Option EventRow
titled e (some task) (some team) =
    some (record { score = e; team_name = team.name; task_title = task.title })
titled e (some task) none = none
titled e none team = none

abbrev pub event_rows : List EmployeeScore → Store → List EventRow
event_rows es s = join (λ e. titled e (task_by_id e.task_id s) (team_by_id e.team_id s)) es

titled_lem :
    (e : EmployeeScore) (task : Option Task) (team : Option Team)
    → (elim task as (λ _. Option EventRow) [
      | none ↦ none
      | some t ↦ elim team as (λ _. Option EventRow) [
        | none ↦ none
        | some m ↦ some (record { score = e; task_title = t.title; team_name = m.name })
      ]
    ])
      ≡ titled e task team
titled_lem e none team = refl
titled_lem e (some task) none = refl
titled_lem e (some task) (some team) = refl

pub rows_lem : (es : List EmployeeScore) (s : Store) → join (event_row s) es ≡ event_rows es s
rows_lem es s =
    ap {A = EmployeeScore → Option EventRow} (λ f. join f es)
      (λ i e. titled_lem e (task_by_id e.task_id s) (team_by_id e.team_id s) i)

sums_lem : (es : List EmployeeScore) → points_of es ≡ sum_points es
sums_lem [] = omega arith
sums_lem (e ∷ es) = omega (arith, sums_lem es)

kind_lem :
    (t : ScoreEventType)
    → (is_on_time t ≡ is_kind on_time_completion t)
      × (is_late t ≡ is_kind late_completion t)
      × (is_missed t ≡ is_kind missed_deadline t)
      × (is_rejection t ≡ is_kind rejection t)
kind_lem on_time_completion = (refl, refl, refl, refl)
kind_lem late_completion = (refl, refl, refl, refl)
kind_lem missed_deadline = (refl, refl, refl, refl)
kind_lem rejection = (refl, refl, refl, refl)

-- The totals of those events
abbrev pub TotalsOf : List EmployeeScore → Breakdown → Type 0
TotalsOf es b =
    (b.total_points ≡ sum_points es)
    × (b.on_time_count ≡ kind_count on_time_completion es)
    × (b.late_count ≡ kind_count late_completion es)
    × (b.missed_count ≡ kind_count missed_deadline es)
    × (b.rejection_count ≡ kind_count rejection es)

pub breakdown_of-TotalsOf : (es : List EmployeeScore) → TotalsOf es (breakdown_of es)
breakdown_of-TotalsOf es =
    let counts : (f : EmployeeScore → Bool) → ℕ = λ f. count f es in
    (
      sums_lem es,
      ap counts (λ i e. (kind_lem e.event_type).0 i),
      ap counts (λ i e. (kind_lem e.event_type).1 i),
      ap counts (λ i e. (kind_lem e.event_type).2 i),
      ap counts (λ i e. (kind_lem e.event_type).3 i),
    )

-- The page of so many rows after so many others
abbrev pub IsPage : ℕ → ℕ → List EventRow → List EventRow → Type 0
IsPage limit offset all page =
    (before : List EventRow) × (after : List EventRow) × (all ≡ before ++ page ++ after)
    × (length before ≡ min offset (length all))
    × (length page ≡ min limit (length all - offset))

-- A page of the rows, newest first
abbrev pub IsPageOf : ℕ → ℕ → List EventRow → List EventRow → Type 0
IsPageOf limit offset rows page =
    (all : List EventRow) × IsNewestFirst all
    × ((p : EventRow → Bool) → count p all ≡ count p rows)
    × IsPage limit offset all page

count-insert_event :
    (p : EventRow → Bool) (r : EventRow) (rs : List EventRow)
    → count p (insert_event r rs) ≡ count p (r ∷ rs)
count-insert_event p r [] = refl
count-insert_event p r (x ∷ xs) = ground (arith, count-insert_event p r xs)

count-sort_events :
    (p : EventRow → Bool) (rs : List EventRow) → count p (sort_events rs) ≡ count p rs
count-sort_events p [] = refl
count-sort_events p (r ∷ rs) =
    ground (arith, count-insert_event p r (sort_events rs), count-sort_events p rs)

inserted_down :
    (at : ℕ) (r : EventRow) (xs : List EventRow)
    → r.score.event_at ≤ at
    → DownFrom at xs
    → DownFrom at (insert_event r xs)
inserted_down at r [] h d = (h, tt)
inserted_down at r (x ∷ xs) h d = elim (Bool-cases (leb x.score.event_at r.score.event_at)) [
  | inl first ↦ rw first (h, (ground arith, d.1))
  | inr after ↦ rw after (d.0, inserted_down x.score.event_at r xs (ground arith) d.1)
]

inserted :
    (r : EventRow) (xs : List EventRow) → IsNewestFirst xs → IsNewestFirst (insert_event r xs)
inserted r [] d = tt
inserted r (x ∷ xs) d = elim (Bool-cases (leb x.score.event_at r.score.event_at)) [
  | inl first ↦ rw first (ground arith, d)
  | inr after ↦ rw after (inserted_down x.score.event_at r xs (ground arith) d)
]

sort_events-IsNewestFirst : (rs : List EventRow) → IsNewestFirst (sort_events rs)
sort_events-IsNewestFirst [] = tt
sort_events-IsNewestFirst (r ∷ rs) = inserted r (sort_events rs) (sort_events-IsNewestFirst rs)

first_rows :
    (n : ℕ) (rs : List EventRow)
    → (after : List EventRow) × (rs ≡ limited n rs ++ after)
      × (length (limited n rs) ≡ min n (length rs))
first_rows zero rs = (rs, refl, omega arith)
first_rows (suc n) [] = ([], refl, omega arith)
first_rows (suc n) (r ∷ rs) =
    let (after, e, l) = first_rows n rs in (after, ap (λ z. r ∷ z) e, omega (arith, l))

limited-IsPage : (limit : ℕ) (all : List EventRow) → IsPage limit 0 all (limited limit all)
limited-IsPage limit all =
    let (after, e, l) = first_rows limit all in ([], after, e, omega arith, omega (arith, l))

page :
    (limit offset : ℕ) (all : List EventRow)
    → IsPage limit offset all (limited limit (offset_by offset all))
page limit zero all = limited-IsPage limit all
page zero (suc n) [] = ([], [], refl, omega arith, omega arith)
page (suc limit) (suc n) [] = ([], [], refl, omega arith, omega arith)
page limit (suc n) (r ∷ rs) =
    let (before, after, e, b, l) = page limit n rs in
    (r ∷ before, after, ap (λ z. r ∷ z) e, omega (arith, b), omega (arith, l))

pub limited-IsPageOf :
    (limit offset : ℕ) (rows : List EventRow)
    → IsPageOf limit offset rows (limited limit (offset_by offset (sort_events rows)))
limited-IsPageOf limit offset rows = (
  sort_events rows,
  sort_events-IsNewestFirst rows,
  λ p. count-sort_events p rows,
  page limit offset (sort_events rows),
)
