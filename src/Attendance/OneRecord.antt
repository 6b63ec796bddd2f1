-- ===== src/Attendance/OneRecord.antt =====
-- A user has at most one record for a day in an organization, over every history of submissions,
-- comparisons and nightly tasks.
use abhiyan.Text.{is_blank}
use abhiyan.Calendar.{ist_hour, current_date}
use abhiyan.Db.Rules.{
  Quiet-uuid_printer, Quiet-raise, Quiet-attempt, quiet_rules, Quiet-pure, Quiet-now,
  Quiet-parse_uuid, Quiet,
}
use abhiyan.Db.Always.{
  Always-outcome, Always-if, Always-ignore, Always-Quiet, Always-bind, Always-exec,
  Always-write_checked, Always,
}
use abhiyan.Sql.Memberships.{get_org_info}
use abhiyan.Attendance.Marking.{
  bad_request, forbidden, mark_on_time, mark_with_face, mark_at, mark_if_enabled, upsert_record,
  mark_attendance, absence_task, set_result, compare_faces_task, is_attendance_enabled,
  answer_marked, user_face_uri,
}
use abhiyan.Prelude.{
  filter, ltb, ℕ, suc, ◌+◌, ◌≤◌, String, Bool, true, false, Option, none, some, List, [], ◌∷◌, ◌++◌,
  ◌==◌, ◌≡◌, refl, subst, find, any, count, count-append, update_where, Bool-cases, inl, inr, arith,
}
use abhiyan.Schema.Enums.{AttendanceFulfillmentStatus, fulfillment_of}
use abhiyan.Schema.{AttendanceRecord, OrgMembership, Store}
use abhiyan.Db.{value_or, ok, err, Result, Env, Db}
use abhiyan.Sql.Attendance.{
  is_expected, batch_insert_absent_attendance, set_attendance_result, get_user_face_uri,
  upsert_attendance_record, is_record, marked_row, remarked_row, upserted, upsert_as, result_row,
  absent_row, with_absent, absent_rows,
}

abbrev pub AtMostOne : List AttendanceRecord → Type 0
AtMostOne rs = (u o d : ℕ) → count (is_record u o d) rs ≤ 1

abbrev pub OneRecord : Store → Type 0
OneRecord s = AtMostOne s.attendance_records

any-count :
    (u o d : ℕ) (rs : List AttendanceRecord)
    → any (is_record u o d) rs ≡ false
    → count (is_record u o d) rs ≡ 0
any-count u o d [] h = omega arith
any-count u o d (r ∷ rs) h = ground (arith, any-count u o d rs)

find-count :
    (u o d : ℕ) (rs : List AttendanceRecord)
    → find (is_record u o d) rs ≡ none
    → count (is_record u o d) rs ≡ 0
find-count u o d [] h = omega arith
find-count u o d (r ∷ rs) h = ground (arith, find-count u o d rs)

-- A row of a key that has none
added :
    (u o d : ℕ) (row : AttendanceRecord) (rs : List AttendanceRecord)
    → is_record u o d row ≡ true
    → count (is_record u o d) rs ≡ 0
    → AtMostOne rs
    → AtMostOne (rs ++ row ∷ [])
added u o d row rs own free one u' o' d' =
    ground (arith, one u' o' d', count-append (is_record u' o' d') rs (row ∷ []))

-- An update that leaves the keys
rekeyed :
    (p : AttendanceRecord → Bool) (f : AttendanceRecord → AttendanceRecord)
    (rs : List AttendanceRecord) (u o d : ℕ)
    → ((r : AttendanceRecord) → is_record u o d (f r) ≡ is_record u o d r)
    → count (is_record u o d) (update_where p f rs) ≡ count (is_record u o d) rs
rekeyed p f [] u o d h = refl
rekeyed p f (r ∷ rs) u o d h = ground (arith, rekeyed p f rs u o d h, h r)

upserted-AtMostOne :
    (id u o d : ℕ) (key : String) (f : AttendanceFulfillmentStatus) (s : Store)
    (found : Option AttendanceRecord)
    → find (is_record u o d) s.attendance_records ≡ found
    → AtMostOne s.attendance_records
    → AtMostOne (upserted id u o d key f found s).1.attendance_records
upserted-AtMostOne id u o d key f s none e one =
    added u o d (marked_row id u o d key f) s.attendance_records (ground arith)
      (find-count u o d s.attendance_records e) one
upserted-AtMostOne id u o d key f s (some r) e one = λ u' o' d'. omega (
  arith,
  one u' o' d',
  rekeyed (is_record u o d) (remarked_row key f) s.attendance_records u' o' d' (λ r. refl),
)

with_absent-AtMostOne :
    (id d : ℕ) (m : OrgMembership) (rs : List AttendanceRecord)
    → AtMostOne rs
    → AtMostOne (with_absent id d m rs)
with_absent-AtMostOne id d m rs one = elim (Bool-cases (any (is_record m.user_id m.org_id d) rs)) [
  | inl had ↦ rw had one
  | inr free ↦ rw free (
      added m.user_id m.org_id d (absent_row id d m) rs (ground arith)
        (any-count m.user_id m.org_id d rs free) one)
]

absent_rows-AtMostOne :
    (gen : ℕ → ℕ) (d : ℕ) (ms : List OrgMembership) (rs : List AttendanceRecord)
    → AtMostOne rs
    → AtMostOne (absent_rows gen d ms rs)
absent_rows-AtMostOne gen d [] rs one = one
absent_rows-AtMostOne gen d (m ∷ ms) rs one =
    absent_rows-AtMostOne (λ n. gen (suc n)) d ms (with_absent (gen 0) d m rs)
      (with_absent-AtMostOne (gen 0) d m rs one)

upsert_as-OneRecord :
    (id u o d : ℕ) (key : String) (f : Option AttendanceFulfillmentStatus) (s s' : Store) (i : ℕ)
    → upsert_as id u o d key f s ≡ some (i, s')
    → OneRecord s
    → OneRecord s'
upsert_as-OneRecord id u o d key none s s' i e one = absurd cc
upsert_as-OneRecord id u o d key (some f) s s' i e one =
    let found = find (is_record u o d) s.attendance_records in
    let same : (upserted id u o d key f found s).1 ≡ s' = cc in
    subst OneRecord same (upserted-AtMostOne id u o d key f s found refl one)

upsert-Always : (u o : ℕ) (key f : String) → Always OneRecord (upsert_attendance_record u o key f)
unfolding upsert_attendance_record
upsert-Always u o key f = Always-write_checked _ (λ env t s one i s' e.
    upsert_as-OneRecord (env.gen_uuid t) u o (current_date (env.clock t)) key (fulfillment_of f) s
      s' i e one)

result-Always :
    (id : String) (present : Bool) (status : String)
    → Always OneRecord (set_result id present status)
unfolding set_result set_attendance_result
result-Always id present status = Always-bind _ _ (Always-Quiet (Quiet-parse_uuid id)) (λ i.
    Always-exec _ (λ env t s one u o d. omega (
      arith,
      one u o d,
      rekeyed (λ r. r.id == i) (result_row present status) s.attendance_records u o d (λ r. refl),
    )))

compare-Always : (c : Option Bool) (id : String) → Always OneRecord (compare_faces_task c id)
unfolding compare_faces_task
compare-Always none id =
    Always-bind _ _ (Always-ignore _ (result-Always id false "unmatched"))
      (λ _. Always-Quiet (Quiet-raise _))
compare-Always (some matched) id =
    Always-bind _ _ (result-Always id matched _) (λ _. Always-Quiet (Quiet-pure _))

absence-Always : Always OneRecord absence_task
unfolding absence_task batch_insert_absent_attendance
absence-Always = Always-exec _ (λ env t s one.
    absent_rows-AtMostOne (λ n. env.gen_uuid (t + n)) (current_date (env.clock t))
      (filter (is_expected s) s.org_memberships) s.attendance_records one)

record-Always : (user org key f : String) → Always OneRecord (upsert_record user org key f)
unfolding upsert_record
record-Always user org key f =
    search
      (Always-bind, Always-Quiet, Quiet-parse_uuid, Quiet-uuid_printer, Quiet-pure, upsert-Always)
      depth 12

answer-Always :
    (source key : String) (r : Result String) → Always OneRecord (answer_marked source key r)
unfolding answer_marked
answer-Always source key (err e) = Always-Quiet (Quiet-pure _)
answer-Always source key (ok id) = Always-Quiet (search quiet_rules)

pub enabled-Quiet : (org : String) → Quiet (is_attendance_enabled org)
unfolding is_attendance_enabled get_org_info
enabled-Quiet org = search quiet_rules depth 8

pub face-Quiet : (user : String) → Quiet (user_face_uri user)
unfolding user_face_uri get_user_face_uri
face-Quiet user = search quiet_rules depth 8

enabled-Always :
    (b : Bool) (at : ℕ) (user org key : String)
    → Always OneRecord (mark_if_enabled b at user org key)
unfolding mark_if_enabled mark_with_face
enabled-Always false at user org key = Always-Quiet (Quiet-pure _)
enabled-Always true at user org key =
    Always-bind _ _ (Always-Quiet (Quiet-attempt _ (face-Quiet user))) (λ face.
      Always-if _ _ _ (Always-Quiet (Quiet-pure _)) (
        Always-bind _ _ (Always-outcome _ (record-Always user org key _))
          (λ r. answer-Always _ key r)))

on_time-Always : (at : ℕ) (user org key : String) → Always OneRecord (mark_on_time at user org key)
unfolding mark_on_time
on_time-Always at user org key =
    Always-bind _ _ (Always-Quiet (Quiet-attempt _ (enabled-Quiet org)))
      (λ e. enabled-Always (value_or false e) at user org key)

at-Always : (at : ℕ) (user org key : String) → Always OneRecord (mark_at at user org key)
unfolding mark_at
at-Always at user org key =
    Always-if (ltb (ist_hour at) 7) _ _ (Always-Quiet (Quiet-pure forbidden)) (
      Always-if (is_blank key) _ _ (Always-Quiet (Quiet-pure bad_request))
        (on_time-Always at user org key))

mark-Always : (user org key : String) → Always OneRecord (mark_attendance user org key)
unfolding mark_attendance
mark-Always user org key =
    Always-bind _ _ (Always-Quiet Quiet-now) (λ at. at-Always at user org key)

-- What happens to the records: a submission (user, organization, key), the comparison of its
-- pictures (what Rekognition says, the record), and the nightly task
pub data Event : Type 0 where
  mark : String → String → String → Event
  compared : Option Bool → String → Event
  night : Event

unfoldable pub step : Env → Event → Db → Db
step env (mark user org key) db = (mark_attendance user org key env db).1
step env (compared c id) db = (compare_faces_task c id env db).1
step env night db = (absence_task env db).1

unfoldable pub history : Env → List Event → Db → Db
history env [] db = db
history env (e ∷ es) db = history env es (step env e db)

step-OneRecord :
    (env : Env) (e : Event) (db : Db) → OneRecord db.store → OneRecord (step env e db).store
unfolding step
step-OneRecord env (mark user org key) db one = (mark-Always user org key).at env db one
step-OneRecord env (compared c id) db one = (compare-Always c id).at env db one
step-OneRecord env night db one = absence-Always.at env db one

-- From a database in which a user has at most one attendance record for a day in an organization,
-- every sequence of submissions, comparisons of pictures and nightly tasks, with statements failing
-- at any points, leads to one in which that is so.
pub history-OneRecord :
    (env : Env) (es : List Event) (db : Db)
    → OneRecord db.store
    → OneRecord (history env es db).store
unfolding history
history-OneRecord env [] db one = one
history-OneRecord env (e ∷ es) db one =
    history-OneRecord env es (step env e db) (step-OneRecord env e db one)
