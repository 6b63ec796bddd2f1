-- ===== src/Attendance/Expected.antt =====
-- What a listing of attendance over a range of days is expected to say, described apart from the
-- queries: whom, which days and which teams it has rows for, and the labels of a row.
use abhiyan.Attendance.Reports.{resolve_fulfillment, AttendanceRow, attendance_row, resolve_status}
use abhiyan.Sql.Attendance.{
  DayRow, span, day_row, presence_status, rows_of_user, series, active_users, teams_of_user,
  org_team, presence, recorded_fulfillment,
}
use mathlib.Core.Path.{ap₂}
use abhiyan.Prelude.{
  some_if, ℕ, zero, suc, ◌+◌, ◌-◌, String, Bool, true, false, ◌&&◌, Option, none, some, List, [],
  ◌∷◌, ◌==◌, ◌≡◌, refl, sym, ap, ◌∙◌, filter, find, join, map, flat_map, map-map, map-flat_map,
  join-if, filter-join, arith,
}
use abhiyan.Schema.Enums.{AttendanceFulfillmentStatus, full_day, half_day, is_active}
use abhiyan.Schema.{AttendanceRecord, Store, Team, User}
use abhiyan.Text.{or_empty}
use abhiyan.Calendar.{format_date}
use abhiyan.Sql.Tasks.{team_by_id}
use abhiyan.Sql.Participants.{user_by_id}

-- The days from the first to the last
abbrev first_days : ℕ → List ℕ
first_days zero = []
first_days (suc n) = 0 ∷ map (λ k. suc k) (first_days n)

abbrev pub days : ℕ → ℕ → List ℕ
days from to = map (λ k. from + k) (first_days (suc to - from))

-- The active members of the organization
abbrev pub org_users : ℕ → Store → List User
org_users o s =
    join (λ m. user_by_id m.user_id s)
      (filter (λ m. (m.org_id == o) && is_active m.status) s.org_memberships)

-- The teams of a user that are the organization's
abbrev pub org_teams : ℕ → Store → User → List Team
org_teams o s u =
    filter (λ t. t.org_id == o)
      (join (λ tm. team_by_id tm.team_id s) (filter (λ tm. tm.user_id == u.id) s.team_members))

-- What the record of a user and a day says, where there is one: was the user present?
abbrev seen : Option AttendanceRecord → Option Bool
seen none = none
seen (some r) = r.present

abbrev fulfilled_as : Option AttendanceRecord → Option AttendanceFulfillmentStatus
fulfilled_as none = none
fulfilled_as (some r) = r.fulfillment

abbrev pub expected_status : Bool → Option Bool → String
expected_status enabled (some true) = "present"
expected_status enabled (some false) = "absent"
expected_status true none = "absent"
expected_status false none = "not_applicable"

abbrev pub expected_fulfillment : Option Bool → Option AttendanceFulfillmentStatus → String
expected_fulfillment (some true) (some full_day) = "FULL_DAY"
expected_fulfillment (some true) (some half_day) = "HALF_DAY"
expected_fulfillment (some true) none = ""
expected_fulfillment (some false) f = ""
expected_fulfillment none f = ""

abbrev record_of : ℕ → ℕ → ℕ → Store → Option AttendanceRecord
record_of o u d s =
    find (λ r. (r.user_id == u) && (r.org_id == o) && (r.attendance_date == d)) s.attendance_records

abbrev pub expected_row : (ℕ → String) → Bool → ℕ → Store → User → ℕ → Team → AttendanceRow
expected_row print enabled o s u d t =
    let found = record_of o u.id d s in
    record {
      id = print u.id;
      first_name = or_empty u.first_name;
      last_name = or_empty u.last_name;
      email = u.email_id;
      team_name = t.name;
      attendance_status = expected_status enabled (seen found);
      attendance_date = format_date d;
      fulfillment = expected_fulfillment (seen found) (fulfilled_as found);
    }

abbrev pub expected_rows :
    (ℕ → String) → Bool → ℕ → Store → (User → List Team) → List ℕ → List AttendanceRow
expected_rows print enabled o s teams ds =
    flat_map (λ u. flat_map (λ d. map (expected_row print enabled o s u d) (teams u)) ds)
      (org_users o s)

status_lem :
    (p : Option Bool) (enabled : Bool)
    → resolve_status (presence_status p) enabled ≡ expected_status enabled p
unfolding resolve_status
status_lem none true = refl
status_lem none false = refl
status_lem (some true) enabled = refl
status_lem (some false) enabled = refl

fulfillment_lem :
    (p : Option Bool) (enabled : Bool) (raw : Option AttendanceFulfillmentStatus)
    → resolve_fulfillment (expected_status enabled p) raw ≡ expected_fulfillment p raw
unfolding resolve_fulfillment
fulfillment_lem none true raw = refl
fulfillment_lem none false raw = refl
fulfillment_lem (some true) enabled none = refl
fulfillment_lem (some true) enabled (some full_day) = refl
fulfillment_lem (some true) enabled (some half_day) = refl
fulfillment_lem (some false) enabled raw = refl

presence_lem : (r : Option AttendanceRecord) → presence r ≡ seen r
presence_lem none = refl
presence_lem (some r) = refl

recorded_lem : (r : Option AttendanceRecord) → recorded_fulfillment r ≡ fulfilled_as r
recorded_lem none = refl
recorded_lem (some r) = refl

row_lem :
    (print : ℕ → String) (on : Bool) (o : ℕ) (s : Store) (u : User) (d : ℕ) (t : Team)
    → attendance_row print on (format_date d) (day_row o s u d t) ≡ expected_row print on o s u d t
unfolding attendance_row
row_lem print on o s u d t =
    let found = record_of o u.id d s in
    let status : resolve_status (presence_status (presence found)) on
        ≡ expected_status on (seen found) =
      status_lem (presence found) on ∙ ap (expected_status on) (presence_lem found) in
    rw (status, recorded_lem found, fulfillment_lem (seen found) on (fulfilled_as found)) refl

later : (from k : ℕ) → suc from + k ≡ from + suc k
later from k = omega arith

first_days-series : (n from : ℕ) → series from n ≡ map (λ k. from + k) (first_days n)
first_days-series zero from = refl
first_days-series (suc n) from =
    ap₂ (λ a ds. a ∷ ds) (omega arith)
      (first_days-series n (suc from)
        ∙ ap {A = ℕ → ℕ} (λ g. map g (first_days n)) (λ i k. later from k i)
        ∙ sym (map-map (λ k. from + k) (λ k. suc k) (first_days n)))

pub users_lem : (o : ℕ) (s : Store) → active_users o s ≡ org_users o s
users_lem o s =
    join-if (λ m. (m.org_id == o) && is_active m.status) (λ m. user_by_id m.user_id s)
      s.org_memberships

org_team_lem : (o : ℕ) (x : Option Team) → org_team o x ≡ some_if (λ t. t.org_id == o) x
org_team_lem o none = refl
org_team_lem o (some t) = refl

pub teams_lem : (o : ℕ) (s : Store) (u : User) → teams_of_user o u.id s ≡ org_teams o s u
teams_lem o s u =
    ap (λ f. join f (filter (λ tm. tm.user_id == u.id) s.team_members))
      (λ i tm. org_team_lem o (team_by_id tm.team_id s) i)
    ∙ sym (
        filter-join (λ t. t.org_id == o) (λ tm. team_by_id tm.team_id s)
          (filter (λ tm. tm.user_id == u.id) s.team_members))

-- The rows of the query, labelled, are the expected ones.
pub listed_lem :
    (print : ℕ → String) (on : Bool) (o from to : ℕ) (s : Store) (teams : User → List Team)
    → map
        (λ r. attendance_row print on (format_date r.attendance_date) r)
        (flat_map (rows_of_user teams o s (span from to)) (active_users o s))
      ≡ expected_rows print on o s teams (days from to)
listed_lem print on o from to s teams =
    let f : DayRow → AttendanceRow =
      λ r. attendance_row print on (format_date r.attendance_date) r in
    map-flat_map f (rows_of_user teams o s (span from to)) (active_users o s)
    ∙ ap (flat_map (λ u. map f (rows_of_user teams o s (span from to) u))) (users_lem o s)
    ∙ ap {A = User → List AttendanceRow} (λ g. flat_map g (org_users o s))
        (λ i u.
          (map-flat_map f (λ d. map (day_row o s u d) (teams u)) (span from to)
              ∙ ap {A = ℕ → List AttendanceRow} (λ g. flat_map g (span from to))
                  (λ j d.
                    (map-map f (day_row o s u d) (teams u)
                        ∙ ap {A = Team → AttendanceRow} (λ g. map g (teams u))
                            (λ k t. row_lem print on o s u d t k))
                      j)
              ∙ ap (flat_map (λ d. map (expected_row print on o s u d) (teams u)))
                  (first_days-series (suc to - from) from))
            i)
