-- ===== src/Attendance/Summaries.antt =====
-- What GetUserSummary of server/internal/services/attendance.go reports of a user.
use abhiyan.Attendance.Expected.{expected_fulfillment}
use abhiyan.Sql.Memberships.{org_by_id}
use abhiyan.Calendar.{parse_date}
use abhiyan.Db.Yields.{Yields}
use abhiyan.Text.{is_blank}
use abhiyan.Sql.Orgs.{belongs}
use abhiyan.Db.{Db, Env}
use abhiyan.Attendance.Reports.{UserAttendanceSummary, HistoryRow}
use abhiyan.Calendar.{format_date}
use abhiyan.Prelude.{
  filter, not, ltb, ◌==◌, none, some, ◌&&◌, some, map, Option, ℕ, ◌≤◌, ◌+◌, Bool, true, false, ◌||◌,
  String, List, length, count, All, ◌≡◌,
}
use abhiyan.Schema.{Store, Organization, AttendanceRecord}

-- A day of a history has a fulfillment only where the user was present.
abbrev pub Earned : HistoryRow → Type 0
Earned h = (is_blank h.fulfillment || h.present) ≡ true

-- The records of the user in the organization, from the first day to the last, described apart from
-- the queries
abbrev pub own_records : ℕ → ℕ → ℕ → ℕ → Store → List AttendanceRecord
own_records u o from to s =
    filter
      (λ r.
        not (ltb r.attendance_date from || ltb to r.attendance_date)
        && r.org_id == o
        && r.user_id == u)
      s.attendance_records

-- Did the record's result say that the user was there, or that the user was not?
abbrev pub was_there : Option Bool → Bool
was_there none = false
was_there (some true) = true
was_there (some false) = false

abbrev pub was_missed : Option Bool → Bool
was_missed none = false
was_missed (some true) = false
was_missed (some false) = true

abbrev pub expected_day : AttendanceRecord → HistoryRow
expected_day r = record {
  date = format_date r.attendance_date;
  present = was_there r.present;
  fulfillment = expected_fulfillment r.present r.fulfillment;
}

abbrev pub Summarized :
    String → String → String → String → Env → Store → UserAttendanceSummary → Store → Type 0
Summarized user caller from_text to_text env s0 r s =
    (u : ℕ) × (o : ℕ) × (from : ℕ) × (to : ℕ) × (row : Organization) × (env.parse_uuid user
      ≡ some u)
    × (env.parse_uuid caller ≡ some o)
    × (parse_date from_text ≡ some from)
    × (parse_date to_text ≡ some to)
    × (from ≤ to)
    × (to ≤ from + 366)
    × (belongs u o s0 ≡ true)
    × (org_by_id o s0 ≡ some row)
    × (r.attendance_enabled ≡ row.attendance_enabled)
    × (s ≡ s0)
    × (r.history ≡ map expected_day (own_records u o from to s0))
    × (r.present_count ≡ count (λ q. was_there q.present) (own_records u o from to s0))
    × (r.absent_count ≡ count (λ q. was_missed q.present) (own_records u o from to s0))
    × (r.present_count ≡ count (λ h. h.present) r.history)
    × (r.present_count + r.absent_count ≤ length r.history)
    × All Earned r.history

abbrev InOrg : String → String → Env → Store → Type 0
InOrg user caller env s0 =
    (u : ℕ) × (o : ℕ) × (env.parse_uuid user ≡ some u)
    × (env.parse_uuid caller ≡ some o)
    × (belongs u o s0 ≡ true)
