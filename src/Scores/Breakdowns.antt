-- ===== src/Scores/Breakdowns.antt =====
-- GetUserBreakdown of server/internal/services/scores.go: the totals of a user and a page of events.
use abhiyan.Scores.Pages.{
  rows_lem, limited-IsPageOf, breakdown_of-TotalsOf, counted_lem, event_rows, IsPageOf, TotalsOf,
  live_events,
}
use abhiyan.Db.Yields.{
  Yields-pure, Yields-uuid_printer, Yields-require, Yields-read, Yields-parse_uuid, Yields-check,
  yielded, Idle,
}
use abhiyan.Tasks.Guards.{require}
use abhiyan.Sql.Orgs.{belongs, is_user_in_org}
use abhiyan.Sql.Leaderboards.{is_on_time}
use abhiyan.Sql.Breakdowns.{
  event_row, sort_events, offset_by, breakdown_of, is_rejection, counted_events,
  get_user_score_events, is_late, limited, get_user_score_breakdown, Breakdown, EventRow,
}
use abhiyan.Prelude.{
  join, subst, ℕ, ◌+◌, String, true, Option, some, List, [], ◌∷◌, ◌≡◌, refl, sym, ap, ◌∙◌, count,
  length, map, arith,
}
use abhiyan.Schema.Enums.{
  is_missed, ScoreEventType, on_time_completion, late_completion, missed_deadline, rejection,
}
use abhiyan.Schema.{EmployeeScore, Store}
use abhiyan.Db.{ok, uuid_printer, Db, not_in_org, Env, M, ◌>>=◌, ◌>>◌, pure, parse_uuid}

-- ScoreEventResponse; its event type is the label of the one here.
pub record ScoreEventResponse : Type 0 where
  pub id : String
  pub task_id : String
  pub task_title : String
  pub team_id : String
  pub team_name : String
  pub event_type : ScoreEventType
  pub points_awarded : ℕ
  pub due_date_snapshot : Option ℕ
  pub event_at : ℕ

unfoldable pub event_response : (ℕ → String) → EventRow → ScoreEventResponse
event_response print r = record {
  id = print r.score.id;
  task_id = print r.score.task_id;
  task_title = r.task_title;
  team_id = print r.score.team_id;
  team_name = r.team_name;
  event_type = r.score.event_type;
  points_awarded = r.score.points_awarded;
  due_date_snapshot = r.score.due_date_snapshot;
  event_at = r.score.event_at;
}

pub record ScoreBreakdownResponse : Type 0 where
  pub totals : Breakdown
  pub events : List ScoreEventResponse

unfoldable pub get_user_breakdown : String → String → ℕ → ℕ → String → M ScoreBreakdownResponse
get_user_breakdown user team limit offset caller = do
  user_id ← parse_uuid user
  org_id ← parse_uuid caller
  may ← is_user_in_org user_id org_id
  require may not_in_org
  totals ← get_user_score_breakdown user_id org_id team
  events ← get_user_score_events user_id org_id limit offset team
  print ← uuid_printer
  pure (record { totals = totals; events = map (event_response print) events })

one_kind :
    (t : ScoreEventType)
    → count (λ x. x) (is_on_time t ∷ is_late t ∷ is_missed t ∷ is_rejection t ∷ []) ≡ 1
one_kind on_time_completion = refl
one_kind late_completion = refl
one_kind missed_deadline = refl
one_kind rejection = refl

-- Every event is of one kind.
kinds_add_up :
    (es : List EmployeeScore)
    → count (λ e. is_on_time e.event_type) es
        + count (λ e. is_late e.event_type) es
        + count (λ e. is_missed e.event_type) es
        + count (λ e. is_rejection e.event_type) es
      ≡ length es
kinds_add_up [] = omega arith
kinds_add_up (e ∷ es) = ground (arith, kinds_add_up es, one_kind e.event_type)

-- What a listed event says: the ids as they are printed, and the row's own values
abbrev pub expected_event : (ℕ → String) → EventRow → ScoreEventResponse
expected_event print r =
    let e = r.score in
    record {
      event_at = e.event_at;
      due_date_snapshot = e.due_date_snapshot;
      points_awarded = e.points_awarded;
      event_type = e.event_type;
      team_name = r.team_name;
      team_id = print e.team_id;
      task_title = r.task_title;
      task_id = print e.task_id;
      id = print e.id;
    }

response_lem : (print : ℕ → String) (r : EventRow) → event_response print r ≡ expected_event print r
unfolding event_response
response_lem print r = refl

-- The totals and the page are of the user's live events.
abbrev pub Reported :
    (ℕ → String) → ℕ → ℕ → String → ℕ → ℕ → Store → ScoreBreakdownResponse → Type 0
Reported print u o team limit offset s r =
    let live = live_events print u o team s in
    TotalsOf live r.totals
    × (r.totals.on_time_count + r.totals.late_count + r.totals.missed_count
          + r.totals.rejection_count
        ≡ length live)
    × ((page : List EventRow) × (r.events ≡ map (expected_event print) page)
        × IsPageOf limit offset (event_rows live s) page)

abbrev pub BrokenDown :
    String → String → ℕ → ℕ → String → Env → Store → ScoreBreakdownResponse → Store → Type 0
BrokenDown user team limit offset caller env s0 r s =
    (u : ℕ) × (o : ℕ) × (env.parse_uuid user ≡ some u)
    × (env.parse_uuid caller ≡ some o)
    × (belongs u o s0 ≡ true)
    × (s ≡ s0)
    × Reported env.uuid_string u o team limit offset s0 r

reported :
    (print : ℕ → String) (u o : ℕ) (team : String) (limit offset : ℕ) (s : Store)
    → Reported print u o team limit offset s (record {
      totals = breakdown_of (counted_events print u o team s);
      events = map (event_response print) (
          limited limit (
            offset_by offset (sort_events (join (event_row s) (counted_events print u o team s)))));
    })
reported print u o team limit offset s =
    let counted = counted_events print u o team s in
    let lives = counted_lem print u o team s in
    let page = limited limit (offset_by offset (sort_events (join (event_row s) counted))) in
    (
      subst (λ es. TotalsOf es (breakdown_of counted)) lives (breakdown_of-TotalsOf counted),
      kinds_add_up counted ∙ ap length lives,
      (
        page,
        ap {A = EventRow → ScoreEventResponse} (λ f. map f page) (λ i q. response_lem print q i),
        subst (λ es. IsPageOf limit offset (event_rows es s) page) lives
            (subst (λ rows. IsPageOf limit offset rows page) (rows_lem counted s)
              (limited-IsPageOf limit offset (join (event_row s) counted))),
      ),
    )

-- A breakdown that is given is of an active member of the caller's organization. It is of the
-- user's live events there, those not superseded, of one team where the request names it: their
-- points added up, how many are of each of the four kinds, which together count each event once,
-- and a page of those that have their task and team, newest first, as many as the limit after as
-- many as the offset, or as many as there are. It changes nothing.
pub get_user_breakdown-BrokenDown :
    (user team : String) (limit offset : ℕ) (caller : String) (env : Env) (db : Db)
    {r : ScoreBreakdownResponse}
    → Idle db
    → (get_user_breakdown user team limit offset caller env db).0 ≡ ok r
    → BrokenDown user team limit offset caller env db.store r
        (get_user_breakdown user team limit offset caller env db).1.store
unfolding get_user_breakdown is_user_in_org get_user_score_breakdown get_user_score_events
get_user_breakdown-BrokenDown user team limit offset caller env db idle h =
    yielded {Q = λ r s. BrokenDown user team limit offset caller env db.store r s}
      (get_user_breakdown user team limit offset caller) db
      (Yields-check _ _ (Yields-parse_uuid user) (λ u pu.
        Yields-check _ _ (Yields-parse_uuid caller) (λ o po.
          Yields-check _ _ (Yields-read _) (λ may e.
            Yields-check _ _ (Yields-require may not_in_org) (λ x passed.
              Yields-check _ _ (Yields-read _) (λ totals t.
                Yields-check _ _ (Yields-read _) (λ events v.
                  Yields-check _ _ Yields-uuid_printer (λ print p. Yields-pure _ (λ s same. (
                    u,
                    o,
                    pu,
                    po,
                    sym e.1 ∙ passed,
                    same,
                    subst (Reported env.uuid_string u o team limit offset db.store)
                        (λ i. record {
                          totals = sym t.1 i;
                          events = map (event_response (sym p i)) (sym v.1 i);
                        })
                        (reported env.uuid_string u o team limit offset db.store),
                  ))))))))))
      idle refl h
