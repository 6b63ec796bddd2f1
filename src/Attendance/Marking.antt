-- ===== src/Attendance/Marking.antt =====
-- UpsertRecord, GetTodayStatus, SetResult, GetUserFaceURI and IsAttendanceEnabled of
-- server/internal/services/attendance.go, MarkAttendance of server/internal/handlers/attendance.go,
-- and the tasks of server/cmd/worker/tasks/attendance.go that use them.
use abhiyan.Prelude.{ℕ, String, Bool, true, false, Option, none, some, ltb, if◌then◌else◌}
use abhiyan.Text.{is_blank, or_empty}
use abhiyan.Calendar.{ist_hour, attendance_fulfillment, current_date}
use abhiyan.Db.{
  M, Result, ok, err, no_rows, db_error, pure, raise, ◌>>=◌, ◌>>◌, parse_uuid, attempt, outcome,
  ignore, value_or, now, enqueue, uuid_printer, compare_faces,
}
use abhiyan.Sql.Memberships.{get_org_info}
use abhiyan.Sql.Attendance.{
  upsert_attendance_record, set_attendance_result, get_today_attendance, get_user_face_uri,
  batch_insert_absent_attendance,
}

unfoldable pub upsert_record : String → String → String → String → M String
upsert_record user org key fulfillment = do
  user_id ← parse_uuid user
  org_id ← parse_uuid org
  id ← upsert_attendance_record user_id org_id key fulfillment
  print ← uuid_printer
  pure (print id)

-- No record of today is the status "none".
unfoldable pub status_or_none : Result String → M String
status_or_none (ok status) = pure status
status_or_none (err no_rows) = pure "none"
status_or_none (err e) = raise e

unfoldable pub get_today_status : String → String → M String
get_today_status user org = do
  user_id ← parse_uuid user
  org_id ← parse_uuid org
  at ← now
  row ← outcome (get_today_attendance user_id org_id (current_date at))
  status_or_none row

unfoldable pub set_result : String → Bool → String → M (Unit {0})
set_result record_id present status = do
  id ← parse_uuid record_id
  set_attendance_result id present status

unfoldable pub user_face_uri : String → M String
user_face_uri user = do
  user_id ← parse_uuid user
  uri ← get_user_face_uri user_id
  pure (or_empty uri)

unfoldable pub is_attendance_enabled : String → M Bool
is_attendance_enabled org = do
  org_id ← parse_uuid org
  row ← get_org_info org_id
  pure row.attendance_enabled

-- What the handler answers
pub data Answer : Type 0 where
  accepted : String → Answer
  forbidden bad_request internal_error : Answer

unfoldable pub answer_marked : String → String → Result String → M Answer
answer_marked source key (err e) = pure internal_error
answer_marked source key (ok id) = do
  ignore (enqueue (compare_faces id source key))
  pure (accepted id)

unfoldable pub mark_with_face : ℕ → String → String → String → String → M Answer
mark_with_face at user org key source = if is_blank source then pure bad_request else do
  marked ← outcome (upsert_record user org key (attendance_fulfillment at))
  answer_marked source key marked

unfoldable pub mark_if_enabled : Bool → ℕ → String → String → String → M Answer
mark_if_enabled false at user org key = pure forbidden
mark_if_enabled true at user org key = do
  face ← attempt (user_face_uri user)
  mark_with_face at user org key (value_or "" face)

unfoldable pub mark_on_time : ℕ → String → String → String → M Answer
mark_on_time at user org key = do
  enabled ← attempt (is_attendance_enabled org)
  mark_if_enabled (value_or false enabled) at user org key

-- The two gates: the hour in India, and the key of the request, which is empty where it is missing
unfoldable pub mark_at : ℕ → String → String → String → M Answer
mark_at at user org key =
    if ltb (ist_hour at) 7
    then pure forbidden
    else if is_blank key
    then pure bad_request
    else mark_on_time at user org key

-- MarkAttendance
unfoldable pub mark_attendance : String → String → String → M Answer
mark_attendance user org key = do at ← now; mark_at at user org key

-- NewCompareFacesTask; `compared` is what Rekognition says of the two pictures, or its error.
unfoldable pub compare_faces_task : Option Bool → String → M String
compare_faces_task none id = do ignore (set_result id false "unmatched"); raise db_error
compare_faces_task (some matched) id = do
  let status : String = if matched then "matched" else "unmatched"
  set_result id matched status
  pure status

-- NewBatchInsertAttendanceTask
unfoldable pub absence_task : M (Unit {0})
absence_task = batch_insert_absent_attendance
