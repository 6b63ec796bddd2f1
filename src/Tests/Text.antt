-- ===== src/Tests/Text.antt =====
-- Runs of the text and date functions.
use abhiyan.Calendar.{parse_date, format_date}
use abhiyan.Prelude.{some, none, ◌≡◌, refl}
use abhiyan.Text.{full_name, title, to_lower}

trimmed : full_name (some " Asha") none ≡ "Asha"
unfolding full_name
trimmed = refl

titled : title (to_lower "REJECT now") ≡ "Reject Now"
unfolding title to_lower
titled = refl

started : parse_date "1970-01-01" ≡ some 719528
unfolding parse_date
started = refl

leapt : parse_date "2028-02-29" ≡ some 740771
unfolding parse_date
leapt = refl

unleapt : parse_date "2027-02-29" ≡ none
unfolding parse_date
unleapt = refl

printed : format_date 740771 ≡ "2028-02-29"
unfolding format_date
printed = refl
