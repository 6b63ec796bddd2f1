-- ===== src/Calendar.antt =====
-- What the services use of Go's time package: time.Parse and Format with the layout "2006-01-02", and
-- the hour in the zone of India (IST of server/internal/util/uuid.go, five hours and a half ahead
-- of UTC). A date is the number of days from the first of the year 0; a time is the nanoseconds
-- from 1970.
pub mod Years
use Prim.Native.Char.{code}
use abhiyan.Prelude.{
  ℕ, zero, suc, ◌+◌, ◌-◌, ◌*◌, ◌/◌, ◌%◌, String, Bool, false, ◌&&◌, ◌||◌, not, Option, none, some,
  List, [], ◌∷◌, ◌==◌, leb, ltb, if◌then◌else◌,
}
use abhiyan.Text.{◌<>◌, is_blank}

abbrev pub hour : ℕ
hour = 3600000000000

-- The days before a year
unfoldable pub days_before_year : ℕ → ℕ
days_before_year y = 365 * y + (y + 3) / 4 + (y + 399) / 400 - (y + 99) / 100

abbrev pub is_leap : ℕ → Bool
is_leap y = (y % 4 == 0) && (not (y % 100 == 0) || y % 400 == 0)

abbrev pub months : ℕ → List ℕ
months y =
    31 ∷ (if is_leap y then 29 else 28) ∷ 31 ∷ 30 ∷ 31 ∷ 30 ∷ 31 ∷ 31 ∷ 30 ∷ 31 ∷ 30 ∷ 31 ∷ []

-- The day of the year, counted from 0, where the month and the day of the month are good ones
unfoldable pub day_in_year : List ℕ → ℕ → ℕ → Option ℕ
day_in_year [] m d = none
day_in_year (n ∷ ns) zero d = none
day_in_year (n ∷ ns) (suc m) d =
    let rest = later n (day_in_year ns m d) in
    if m == 0 then if leb 1 d && leb d n then some (d - 1) else none else rest
  where
    later : ℕ → Option ℕ → Option ℕ
    later n none = none
    later n (some k) = some (n + k)

abbrev pub date_of : ℕ → Option ℕ → Option ℕ
date_of y none = none
date_of y (some k) = some (days_before_year y + k)

-- A number of that many digits, and what follows it
unfoldable pub take_digits : ℕ → ℕ → String → Option (ℕ × String)
take_digits zero acc s = some (acc, s)
take_digits (suc n) acc String.[] = none
take_digits (suc n) acc (String.◌∷◌ c s) =
    let rest = take_digits n (10 * acc + (code c - 48)) s in
    if leb 48 (code c) && leb (code c) 57 then rest else none

abbrev pub take_dash : String → Option String
take_dash String.[] = none
take_dash (String.◌∷◌ c s) = if code c == 45 then some s else none

abbrev pub take_part : ℕ → Option String → Option (ℕ × String)
take_part n none = none
take_part n (some s) = take_digits n 0 s

abbrev pub after_part : Option (ℕ × String) → Option String
after_part none = none
after_part (some (n, s)) = take_dash s

abbrev pub part_or_zero : Option (ℕ × String) → ℕ
part_or_zero none = 0
part_or_zero (some (n, s)) = n

abbrev pub is_end : Option (ℕ × String) → Bool
is_end none = false
is_end (some (n, s)) = is_blank s

-- time.Parse("2006-01-02", s)
unfoldable pub parse_date : String → Option ℕ
unfolding take_digits day_in_year days_before_year
parse_date s =
    let year = take_digits 4 0 s in
    let month = take_part 2 (after_part year) in
    let day = take_part 2 (after_part month) in
    let y = part_or_zero year in
    if is_end day
    then date_of y (day_in_year (months y) (part_or_zero month) (part_or_zero day))
    else none

abbrev pub digit : ℕ → String
digit d =
    if d == 0
    then "0"
    else if d == 1
    then "1"
    else if d == 2
    then "2"
    else if d == 3
    then "3"
    else if d == 4
    then "4"
    else if d == 5
    then "5"
    else if d == 6
    then "6"
    else if d == 7
    then "7"
    else if d == 8
    then "8"
    else "9"

abbrev pub two_digits : ℕ → String
two_digits n = digit (n / 10 % 10) <> digit (n % 10)

-- The year of a date: the first whose days end after it
unfoldable pub year_from : ℕ → ℕ → ℕ → ℕ
year_from zero y n = y
year_from (suc fuel) y n =
    let rest = year_from fuel (suc y) n in if ltb n (days_before_year (suc y)) then y else rest

abbrev pub year_of : ℕ → ℕ
year_of n = year_from (suc n) 0 n

-- The month, counted from 1, and the day of the month
unfoldable pub month_and_day : List ℕ → ℕ → ℕ → ℕ × ℕ
month_and_day [] m k = (m, suc k)
month_and_day (n ∷ ns) m k =
    let rest = month_and_day ns (suc m) (k - n) in if ltb k n then (m, suc k) else rest

-- t.Format("2006-01-02"), up to the year 9999
unfoldable pub format_date : ℕ → String
unfolding days_before_year month_and_day year_from
format_date n =
    let y = year_of n in
    let (m, d) = month_and_day (months y) 1 (n - days_before_year y) in
    two_digits (y / 100) <> two_digits (y % 100) <> "-" <> two_digits m <> "-" <> two_digits d

-- The date of 1970-01-01
abbrev pub epoch : ℕ
epoch = 719528

-- CURRENT_DATE of a server whose zone is UTC
unfoldable pub current_date : ℕ → ℕ
current_date at = at / (24 * hour) + epoch

-- at.In(util.IST), as the nanoseconds of its clock
abbrev pub in_ist : ℕ → ℕ
in_ist at = at + 5 * hour + 30 * 60000000000

unfoldable pub ist_hour : ℕ → ℕ
ist_hour at = in_ist at / hour % 24

-- AttendanceFulfillment
unfoldable pub attendance_fulfillment : ℕ → String
unfolding ist_hour
attendance_fulfillment at = if ltb (ist_hour at) 12 then "FULL_DAY" else "HALF_DAY"
