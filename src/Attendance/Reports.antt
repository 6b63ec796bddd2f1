-- ===== src/Attendance/Reports.antt =====
-- The listings, summaries and reports of server/internal/services/attendance.go. The first lines of a
-- report, which name it and say when it was made, are left out.
use abhiyan.Prelude.{
  ℕ, ◌-◌, String, Bool, true, false, ◌&&◌, not, Option, none, some, List, [], ◌∷◌, ltb, map, str_eq,
  if◌then◌else◌,
}
use abhiyan.Schema.Enums.{AttendanceFulfillmentStatus, full_day, half_day}
use abhiyan.Schema.{AttendanceRecord}
use abhiyan.Text.{◌<>◌, trim_space, is_blank}
use abhiyan.Calendar.{parse_date, format_date}
use abhiyan.Db.{
  M, pure, raise, ◌>>=◌, ◌>>◌, parse_uuid, lift, uuid_printer, not_in_org, bad_date, bad_range,
  range_too_long,
}
use abhiyan.Sql.Orgs.{is_user_in_org}
use abhiyan.Sql.Attendance.{
  DayRow, get_org_attendance_by_date, get_org_attendance_by_date_and_team, get_org_attendance_range,
  get_org_attendance_range_by_team, get_user_attendance_history_range,
  get_user_attendance_summary_range, is_present,
}
use abhiyan.Tasks.Guards.{require}
use abhiyan.Attendance.Marking.{is_attendance_enabled}

abbrev pub max_attendance_range_days : ℕ
max_attendance_range_days = 366

unfoldable pub validate_date_range : ℕ → ℕ → M (Unit {0})
validate_date_range from to =
    if ltb to from
    then raise bad_range
    else if ltb max_attendance_range_days (to - from)
    then raise range_too_long
    else pure tt

-- time.Parse
unfoldable pub read_date : String → M ℕ
read_date text = lift (parse_date text) bad_date

pub record AttendanceRow : Type 0 where
  pub id : String
  pub first_name : String
  pub last_name : String
  pub email : String
  pub team_name : String
  pub attendance_status : String
  pub attendance_date : String
  pub fulfillment : String

unfoldable pub resolve_status : String → Bool → String
resolve_status raw enabled =
    if not (str_eq raw "no_record") then raw else if not enabled then "not_applicable" else "absent"

abbrev pub fulfillment_text : Option AttendanceFulfillmentStatus → String
fulfillment_text none = ""
fulfillment_text (some full_day) = "FULL_DAY"
fulfillment_text (some half_day) = "HALF_DAY"

unfoldable pub resolve_fulfillment : String → Option AttendanceFulfillmentStatus → String
resolve_fulfillment status raw = if str_eq status "present" then fulfillment_text raw else ""

-- A row of a listing; `date` is empty in those of a single day.
unfoldable pub attendance_row : (ℕ → String) → Bool → String → DayRow → AttendanceRow
attendance_row print enabled date r =
    let status = resolve_status r.attendance_status enabled in
    record {
      id = print r.id;
      first_name = r.first_name;
      last_name = r.last_name;
      email = r.email_id;
      team_name = r.team_name;
      attendance_status = status;
      attendance_date = date;
      fulfillment = resolve_fulfillment status r.fulfillment;
    }

unfoldable pub day_rows : Bool → List DayRow → M (List AttendanceRow)
day_rows enabled rows = do print ← uuid_printer; pure (map (attendance_row print enabled "") rows)

unfoldable pub range_rows : Bool → List DayRow → M (List AttendanceRow)
range_rows enabled rows = do
  print ← uuid_printer
  pure (map (λ r. attendance_row print enabled (format_date r.attendance_date) r) rows)

-- `teamID != "" && teamID != "ALL"`
abbrev pub one_team : String → Bool
one_team team = not (is_blank team) && not (str_eq team "ALL")

unfoldable pub read_day : Bool → ℕ → ℕ → String → M (List DayRow)
read_day true date org_id team = do
  team_id ← parse_uuid team
  get_org_attendance_by_date_and_team date org_id team_id
read_day false date org_id team = get_org_attendance_by_date date org_id

unfoldable pub get_org_attendance : String → String → String → M (List AttendanceRow)
get_org_attendance org date team = do
  day ← read_date date
  enabled ← is_attendance_enabled org
  org_id ← parse_uuid org
  rows ← read_day (one_team team) day org_id team
  day_rows enabled rows

unfoldable pub read_range : Bool → ℕ → ℕ → ℕ → String → M (List DayRow)
read_range true org_id from to team = do
  team_id ← parse_uuid team
  get_org_attendance_range_by_team org_id from to team_id
read_range false org_id from to team = get_org_attendance_range org_id from to

unfoldable pub get_org_attendance_rows : String → String → String → String → M (List AttendanceRow)
get_org_attendance_rows org from_text to_text team = do
  from ← read_date from_text
  to ← read_date to_text
  validate_date_range from to
  enabled ← is_attendance_enabled org
  org_id ← parse_uuid org
  rows ← read_range (one_team team) org_id from to team
  range_rows enabled rows

-- UserAttendanceHistory
pub record HistoryRow : Type 0 where
  pub date : String
  pub present : Bool
  pub fulfillment : String

abbrev pub present_text : Bool → String
present_text true = "present"
present_text false = "absent"

unfoldable pub history_row : AttendanceRecord → HistoryRow
history_row r = record {
  date = format_date r.attendance_date;
  present = is_present r.present;
  fulfillment = resolve_fulfillment (present_text (is_present r.present)) r.fulfillment;
}

pub record UserAttendanceSummary : Type 0 where
  pub present_count : ℕ
  pub absent_count : ℕ
  pub attendance_enabled : Bool
  pub history : List HistoryRow

-- assertUserInOrg
unfoldable pub assert_user_of_caller : String → String → M (Unit {0})
assert_user_of_caller user caller = do
  user_id ← parse_uuid user
  org_id ← parse_uuid caller
  may ← is_user_in_org user_id org_id
  require may not_in_org

unfoldable pub get_user_summary : String → String → String → String → M UserAttendanceSummary
get_user_summary user caller from_text to_text = do
  assert_user_of_caller user caller
  from ← read_date from_text
  to ← read_date to_text
  validate_date_range from to
  user_id ← parse_uuid user
  org_id ← parse_uuid caller
  enabled ← is_attendance_enabled caller
  counts ← get_user_attendance_summary_range user_id org_id from to
  rows ← get_user_attendance_history_range user_id org_id from to
  pure (record {
    present_count = counts.0;
    absent_count = counts.1;
    attendance_enabled = enabled;
    history = map history_row rows;
  })

unfoldable pub csv_status_label : String → String
csv_status_label status = if str_eq status "not_applicable" then "N/A" else status

unfoldable pub csv_fulfillment_label : String → String
csv_fulfillment_label f =
    if str_eq f "FULL_DAY" then "Full Day" else if str_eq f "HALF_DAY" then "Half Day" else ""

-- The cells of a row of the organization's report of a day
unfoldable pub report_line : AttendanceRow → List String
report_line r =
    trim_space (r.first_name <> " " <> r.last_name)
    ∷ r.email
    ∷ r.team_name
    ∷ csv_status_label r.attendance_status
    ∷ csv_fulfillment_label r.fulfillment
    ∷ []

unfoldable pub write_org_report : String → String → String → M (List (List String))
write_org_report org date team = do
  rows ← get_org_attendance org date team
  pure (("Name" ∷ "Email" ∷ "Team" ∷ "Status" ∷ "Fulfillment" ∷ []) ∷ map report_line rows)

unfoldable pub range_line : AttendanceRow → List String
range_line r =
    trim_space (r.first_name <> " " <> r.last_name)
    ∷ r.email
    ∷ r.team_name
    ∷ r.attendance_date
    ∷ csv_status_label r.attendance_status
    ∷ csv_fulfillment_label r.fulfillment
    ∷ []

unfoldable pub write_org_report_range : String → String → String → String → M (List (List String))
write_org_report_range org from to team = do
  rows ← get_org_attendance_rows org from to team
  pure (("Name" ∷ "Email" ∷ "Team" ∷ "Date" ∷ "Status" ∷ "Fulfillment" ∷ []) ∷ map range_line rows)

unfoldable pub history_line : HistoryRow → List String
history_line h = h.date ∷ present_text h.present ∷ csv_fulfillment_label h.fulfillment ∷ []
