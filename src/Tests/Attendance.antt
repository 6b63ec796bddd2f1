-- ===== src/Tests/Attendance.antt =====
-- The theorems on attendance, on the small organization of Tests/Data.antt, at half past eleven in
-- India.
use abhiyan.Sql.Attendance.{upsert_attendance_record, get_user_face_uri}
use abhiyan.Sql.Memberships.{get_org_info}
use abhiyan.Attendance.Marking.{
  accepted, user_face_uri, upsert_record, answer_marked, is_attendance_enabled, mark_with_face,
  mark_if_enabled, mark_on_time, mark_at, mark_attendance,
}
use abhiyan.Attendance.OneRecord.{history-OneRecord, night, mark, history, OneRecord}
use abhiyan.Attendance.Reports.{UserAttendanceSummary, AttendanceRow}
use abhiyan.Attendance.Marked.{mark_attendance-Marked, Marked}
use abhiyan.Schema.Enums.{fulfillment_of, full_day}
use abhiyan.Prelude.{String, some, true, List, ◌+◌, ◌*◌, false, ◌≡◌, refl, [], ◌∷◌, arith}
use abhiyan.Calendar.{attendance_fulfillment, hour, ist_hour, current_date}
use abhiyan.Scores.Points.{day}
use abhiyan.Db.{
  Db, write_checked, now, enqueue, statement, uuid_printer, ignore, select_one, outcome, attempt,
  lift, raise, pure, parse_uuid, ◌>>=◌, Env, ok,
}
use abhiyan.Tests.Data.{tables, uuids, texts, server}

abbrev morning : Env
morning = record {
  fault = λ n. false;
  gen_uuid = λ n. 1000 + n;
  clock = λ n. 5 * day + 6 * hour;
  parse_uuid = uuids;
  uuid_string = texts;
}

alone : OneRecord server.store
alone u o d = omega arith

history-OneRecord_example :
    OneRecord
      (history morning
        (mark "worker" "org" "face" ∷ night ∷ mark "worker" "org" "face" ∷ [])
        server).store
history-OneRecord_example =
    history-OneRecord morning (mark "worker" "org" "face" ∷ night ∷ mark "worker" "org" "face" ∷ [])
      server alone

marks : (mark_attendance "worker" "org" "face" morning server).0 ≡ ok (accepted "uuid")
unfolding mark_attendance mark_at mark_on_time mark_if_enabled mark_with_face answer_marked
    upsert_record user_face_uri is_attendance_enabled get_org_info get_user_face_uri
    upsert_attendance_record attendance_fulfillment ist_hour current_date ◌>>=◌ parse_uuid pure
    fulfillment_of raise lift attempt outcome ignore enqueue now select_one write_checked
    uuid_printer statement
marks = refl

mark_attendance-Marked_example :
    Marked "worker" "org" "face" morning server.store
      (mark_attendance "worker" "org" "face" morning server).1.store
mark_attendance-Marked_example =
    mark_attendance-Marked "worker" "org" "face" morning server (refl, refl) marks

abbrev row : String → String → AttendanceRow
row id name = record {
  id = id;
  first_name = name;
  last_name = "";
  email = name;
  team_name = "Field";
  attendance_status = "absent";
  attendance_date = "1970-01-06";
  fulfillment = "";
}

abbrev rows : List AttendanceRow
rows = row "admin" "Ada" ∷ row "worker" "Grace" ∷ []

abbrev marked_server : Db
marked_server = record server {
  store = record tables {
    attendance_records =
        record {
          id = 300;
          user_id = 8;
          org_id = 100;
          target_file_uri = some "faces/2";
          present = some true;
          status = "matched";
          fulfillment = some full_day;
          attendance_date = 719533;
        }
        ∷ [];
  };
}

abbrev summary : UserAttendanceSummary
summary = record {
  present_count = 1;
  absent_count = 0;
  attendance_enabled = true;
  history = record { date = "1970-01-06"; present = true; fulfillment = "FULL_DAY" } ∷ [];
}
