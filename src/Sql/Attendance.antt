-- ===== src/Sql/Attendance.antt =====
-- The queries of server/internal/db/sqlc/attendance.sql.go, and GetUserFaceURI of users.sql.go. Rows
-- come in the order of the tables: the ORDER BY of the listings is left out.
use abhiyan.Prelude.{
  ℕ, zero, suc, ◌+◌, ◌-◌, String, Bool, true, false, ◌&&◌, not, Option, none, some, List, [], ◌∷◌,
  ◌++◌, ◌==◌, leb, find, filter, any, count, join, flat_map, map, update_where, if◌then◌else◌,
}
use abhiyan.Schema.Enums.{AttendanceFulfillmentStatus, fulfillment_of, is_active}
use abhiyan.Schema.{AttendanceRecord, User, Team, OrgMembership, Store}
use abhiyan.Text.{or_empty}
use abhiyan.Calendar.{current_date}
use abhiyan.Db.{M, exec, select, select_one, write_checked}
use abhiyan.Sql.Tasks.{team_by_id}
use abhiyan.Sql.Participants.{user_by_id}

-- The unique key (user_id, org_id, attendance_date)
abbrev pub is_record : ℕ → ℕ → ℕ → AttendanceRecord → Bool
is_record user_id org_id date r =
    (r.user_id == user_id) && (r.org_id == org_id) && (r.attendance_date == date)

abbrev pub marked_row : ℕ → ℕ → ℕ → ℕ → String → AttendanceFulfillmentStatus → AttendanceRecord
marked_row id user_id org_id date key f = record {
  id = id;
  user_id = user_id;
  org_id = org_id;
  target_file_uri = some key;
  present = none;
  status = "pending";
  fulfillment = some f;
  attendance_date = date;
}

-- ON CONFLICT DO UPDATE; `present` is not among the columns that are set.
abbrev pub remarked_row : String → AttendanceFulfillmentStatus → AttendanceRecord → AttendanceRecord
remarked_row key f r = record r {
  target_file_uri = some key;
  status = "pending";
  fulfillment = some f;
}

abbrev pub records_set : List AttendanceRecord → Store → Store
records_set rs s = record s { attendance_records = rs }

abbrev pub upserted :
    ℕ
    → ℕ
    → ℕ
    → ℕ
    → String
    → AttendanceFulfillmentStatus
    → Option AttendanceRecord
    → Store
    → ℕ × Store
upserted id user_id org_id date key f none s =
    (id, records_set (s.attendance_records ++ marked_row id user_id org_id date key f ∷ []) s)
upserted id user_id org_id date key f (some r) s = (
  r.id,
  records_set
      (update_where (is_record user_id org_id date) (remarked_row key f) s.attendance_records) s,
)

abbrev pub upsert_as :
    ℕ → ℕ → ℕ → ℕ → String → Option AttendanceFulfillmentStatus → Store → Option (ℕ × Store)
upsert_as id user_id org_id date key none s = none
upsert_as id user_id org_id date key (some f) s = some (
    upserted id user_id org_id date key f
      (find (is_record user_id org_id date) s.attendance_records) s)

unfoldable pub upsert_attendance_record : ℕ → ℕ → String → String → M ℕ
upsert_attendance_record user_id org_id key fulfillment = write_checked (λ env t.
    upsert_as (env.gen_uuid t) user_id org_id (current_date (env.clock t)) key
      (fulfillment_of fulfillment))

abbrev pub result_row : Bool → String → AttendanceRecord → AttendanceRecord
result_row present status r = record r { present = some present; status = status }

unfoldable pub set_attendance_result : ℕ → Bool → String → M (Unit {0})
set_attendance_result id present status = exec (λ env t s.
    records_set (update_where (λ r. r.id == id) (result_row present status) s.attendance_records) s)

abbrev pub status_of_record : Option AttendanceRecord → Option String
status_of_record none = none
status_of_record (some r) = some r.status

unfoldable pub get_today_attendance : ℕ → ℕ → ℕ → M String
get_today_attendance user_id org_id today =
    select_one (λ s. status_of_record (find (is_record user_id org_id today) s.attendance_records))

abbrev pub face_of : Option User → Option (Option String)
face_of none = none
face_of (some u) = some u.face_s3_uri

unfoldable pub get_user_face_uri : ℕ → M (Option String)
get_user_face_uri user_id = select_one (λ s. face_of (user_by_id user_id s))

-- A user of the organization is in some team of it.
abbrev pub has_team : ℕ → ℕ → Store → Bool
has_team user_id org_id s =
    any
      (λ tm.
        (tm.user_id == user_id) && any (λ t. (t.id == tm.team_id) && (t.org_id == org_id)) s.teams)
      s.team_members

abbrev pub tracks : ℕ → Store → Bool
tracks org_id s = any (λ o. (o.id == org_id) && o.attendance_enabled) s.organizations

abbrev pub absent_row : ℕ → ℕ → OrgMembership → AttendanceRecord
absent_row id date m = record {
  id = id;
  user_id = m.user_id;
  org_id = m.org_id;
  target_file_uri = none;
  present = some false;
  status = "absent";
  fulfillment = none;
  attendance_date = date;
}

abbrev pub is_expected : Store → OrgMembership → Bool
is_expected s m = is_active m.status && tracks m.org_id s && has_team m.user_id m.org_id s

-- ON CONFLICT DO NOTHING
abbrev pub with_absent : ℕ → ℕ → OrgMembership → List AttendanceRecord → List AttendanceRecord
with_absent id date m rs =
    if any (is_record m.user_id m.org_id date) rs then rs else rs ++ absent_row id date m ∷ []

-- One row after another; each gets an id of its own.
abbrev pub absent_rows :
    (ℕ → ℕ) → ℕ → List OrgMembership → List AttendanceRecord → List AttendanceRecord
absent_rows gen date [] rs = rs
absent_rows gen date (m ∷ ms) rs =
    absent_rows (λ n. gen (suc n)) date ms (with_absent (gen 0) date m rs)

unfoldable pub batch_insert_absent_attendance : M (Unit {0})
batch_insert_absent_attendance = exec (λ env t s.
    records_set
      (absent_rows (λ n. env.gen_uuid (t + n)) (current_date (env.clock t))
        (filter (is_expected s) s.org_memberships) s.attendance_records)
      s)

-- GetOrgAttendanceRangeRow; the rows by date have the same columns but for the date.
pub record DayRow : Type 0 where
  pub id : ℕ
  pub first_name : String
  pub last_name : String
  pub email_id : String
  pub team_name : String
  pub attendance_date : ℕ
  pub attendance_status : String
  pub fulfillment : Option AttendanceFulfillmentStatus

-- The CASE on `present`
abbrev pub presence : Option AttendanceRecord → Option Bool
presence none = none
presence (some r) = r.present

abbrev pub presence_status : Option Bool → String
presence_status none = "no_record"
presence_status (some true) = "present"
presence_status (some false) = "absent"

abbrev pub recorded_fulfillment : Option AttendanceRecord → Option AttendanceFulfillmentStatus
recorded_fulfillment none = none
recorded_fulfillment (some r) = r.fulfillment

abbrev pub record_on : ℕ → ℕ → ℕ → Store → Option AttendanceRecord
record_on user_id org_id date s = find (is_record user_id org_id date) s.attendance_records

abbrev pub day_row : ℕ → Store → User → ℕ → Team → DayRow
day_row org_id s u date t = record {
  id = u.id;
  first_name = or_empty u.first_name;
  last_name = or_empty u.last_name;
  email_id = u.email_id;
  team_name = t.name;
  attendance_date = date;
  attendance_status = presence_status (presence (record_on u.id org_id date s));
  fulfillment = recorded_fulfillment (record_on u.id org_id date s);
}

-- users JOIN org_memberships
abbrev pub active_user : ℕ → Store → OrgMembership → Option User
active_user org_id s m =
    if (m.org_id == org_id) && is_active m.status then user_by_id m.user_id s else none

abbrev pub active_users : ℕ → Store → List User
active_users org_id s = join (active_user org_id s) s.org_memberships

abbrev pub org_team : ℕ → Option Team → Option Team
org_team org_id none = none
org_team org_id (some t) = if t.org_id == org_id then some t else none

-- team_members JOIN teams, of the organization
abbrev pub teams_of_user : ℕ → ℕ → Store → List Team
teams_of_user org_id user_id s =
    join (λ tm. org_team org_id (team_by_id tm.team_id s))
      (filter (λ tm. tm.user_id == user_id) s.team_members)

abbrev pub first_of : List Team → Option Team
first_of [] = none
first_of (t ∷ ts) = some t

abbrev pub first_row : ℕ → Store → ℕ → User → Option DayRow
first_row org_id s date u = elim (first_of (teams_of_user org_id u.id s)) [
  | none ↦ none
  | some t ↦ some (day_row org_id s u date t)
]

-- DISTINCT ON (u.id): one row for each user that is in a team
unfoldable pub get_org_attendance_by_date : ℕ → ℕ → M (List DayRow)
get_org_attendance_by_date date org_id =
    select (λ env t s. join (first_row org_id s date) (active_users org_id s))

abbrev pub of_team : ℕ → List Team → List Team
of_team team_id ts = filter (λ t. t.id == team_id) ts

unfoldable pub get_org_attendance_by_date_and_team : ℕ → ℕ → ℕ → M (List DayRow)
get_org_attendance_by_date_and_team date org_id team_id = select (λ env t s.
    flat_map (λ u. map (day_row org_id s u date) (of_team team_id (teams_of_user org_id u.id s)))
      (active_users org_id s))

-- generate_series
abbrev pub series : ℕ → ℕ → List ℕ
series from zero = []
series from (suc n) = from ∷ series (suc from) n

abbrev pub span : ℕ → ℕ → List ℕ
span from to = series from (suc to - from)

abbrev pub rows_of_user : (User → List Team) → ℕ → Store → List ℕ → User → List DayRow
rows_of_user teams org_id s days u = flat_map (λ date. map (day_row org_id s u date) (teams u)) days

-- A row for each user, each day and each team that the user is in
unfoldable pub get_org_attendance_range : ℕ → ℕ → ℕ → M (List DayRow)
get_org_attendance_range org_id from to = select (λ env t s.
    flat_map (rows_of_user (λ u. teams_of_user org_id u.id s) org_id s (span from to))
      (active_users org_id s))

unfoldable pub get_org_attendance_range_by_team : ℕ → ℕ → ℕ → ℕ → M (List DayRow)
get_org_attendance_range_by_team org_id from to team_id = select (λ env t s.
    flat_map
      (rows_of_user (λ u. of_team team_id (teams_of_user org_id u.id s)) org_id s (span from to))
      (active_users org_id s))

abbrev pub is_between : ℕ → ℕ → ℕ → ℕ → AttendanceRecord → Bool
is_between user_id org_id from to r =
    (r.user_id == user_id)
    && (r.org_id == org_id)
    && leb from r.attendance_date
    && leb r.attendance_date to

abbrev pub records_between : ℕ → ℕ → ℕ → ℕ → Store → List AttendanceRecord
records_between user_id org_id from to s =
    filter (is_between user_id org_id from to) s.attendance_records

unfoldable pub get_user_attendance_history_range : ℕ → ℕ → ℕ → ℕ → M (List AttendanceRecord)
get_user_attendance_history_range user_id org_id from to =
    select (λ env t. records_between user_id org_id from to)

abbrev pub is_present : Option Bool → Bool
is_present none = false
is_present (some b) = b

abbrev pub is_absent : Option Bool → Bool
is_absent none = false
is_absent (some b) = not b

-- COUNT(*) FILTER; the counts fit in an int, as a range has no more than 367 days.
unfoldable pub get_user_attendance_summary_range : ℕ → ℕ → ℕ → ℕ → M (ℕ × ℕ)
get_user_attendance_summary_range user_id org_id from to = select (λ env t s. (
  count (λ r. is_present r.present) (records_between user_id org_id from to s),
  count (λ r. is_absent r.present) (records_between user_id org_id from to s),
))
