-- ===== src/Attendance/Ranges.antt =====
-- What the listings of attendance return, over a day and over a range of days.
use abhiyan.Attendance.Expected.{days, expected_rows, org_users, org_teams}
use abhiyan.Sql.Memberships.{org_by_id}
use abhiyan.Db.Yields.{Yields-pure, Yields-raise, Yields-if, Yields}
use abhiyan.Calendar.{parse_date}
use abhiyan.Db.{Db, range_too_long, bad_range, Env}
use abhiyan.Attendance.Reports.{validate_date_range, AttendanceRow}
use abhiyan.Sql.Attendance.{active_users, span, DayRow, rows_of_user}
use abhiyan.Prelude.{
  ◌==◌, filter, ltb, ◌+◌, flat_map, suc, suc, arith, if◌then◌else◌, [], ◌≡◌, str_eq, List, ℕ, ◌≤◌,
  ◌-◌, ◌*◌, Bool, true, ◌||◌, ◌&&◌, not, Option, none, some, String, length, All,
}
use abhiyan.Schema.{Organization, Store, Team, User}
use abhiyan.Text.{is_blank}

-- The labels that a row can have: `not_applicable` only where attendance is not tracked
abbrev pub is_status : Bool → String → Bool
is_status enabled s =
    str_eq s "present" || str_eq s "absent" || (not enabled && str_eq s "not_applicable")

-- A day has a fulfillment only where the user was present.
abbrev pub Labelled : Bool → AttendanceRow → Type 0
Labelled enabled r =
    (is_status enabled r.attendance_status ≡ true)
    × ((is_blank r.fulfillment || str_eq r.attendance_status "present") ≡ true)

-- The teams of a user that a listing is of: all in the organization, or the one that is named
abbrev pub of_named : Option ℕ → List Team → List Team
of_named none ts = []
of_named (some i) ts = filter (λ t. t.id == i) ts

abbrev pub listed_teams : Env → String → ℕ → Store → User → List Team
listed_teams env team o s u =
    if is_blank team || str_eq team "ALL"
    then org_teams o s u
    else of_named (env.parse_uuid team) (org_teams o s u)

abbrev pub Ranged :
    String → String → String → String → Env → Store → List AttendanceRow → Store → Type 0
Ranged org from_text to_text team env s0 rows s =
    (from : ℕ) × (to : ℕ) × (o : ℕ) × (row : Organization) × (parse_date from_text ≡ some from)
    × (parse_date to_text ≡ some to)
    × (from ≤ to)
    × (to ≤ from + 366)
    × (env.parse_uuid org ≡ some o)
    × (org_by_id o s0 ≡ some row)
    × (s ≡ s0)
    × All (Labelled row.attendance_enabled) rows
    × (length rows
        ≡ (suc to - from) * length (flat_map (listed_teams env team o s0) (org_users o s0)))
    × (rows
        ≡ expected_rows env.uuid_string row.attendance_enabled o s0 (listed_teams env team o s0)
            (days from to))

-- The rows of a listing, before they are labelled
abbrev listed : Store → (User → List Team) → ℕ → ℕ → ℕ → List DayRow
listed s teams from to o = flat_map (rows_of_user teams o s (span from to)) (active_users o s)

module _ {env : Env} {s0 : Store} where
  pub in_range :
      (from to : ℕ)
      → Yields env
          (λ s. s ≡ s0)
          (validate_date_range from to)
          (λ _ s. (s ≡ s0) × ((from ≤ to) × (to ≤ from + 366)))
  unfolding validate_date_range
  in_range from to =
      Yields-if (ltb to from) _ _ (λ e. Yields-raise bad_range)
        (λ ordered.
          Yields-if (ltb 366 (to - from)) _ _ (λ e. Yields-raise range_too_long)
            (λ short. Yields-pure tt (λ s h. (h, (ground arith, ground arith)))))
