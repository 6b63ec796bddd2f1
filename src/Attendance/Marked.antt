-- ===== src/Attendance/Marked.antt =====
-- What a submission that is accepted has passed, and the record that it leaves.
use abhiyan.Attendance.OneRecord.{enabled-Quiet, face-Quiet}
use abhiyan.Db.Yields.{
  Yields-mono, Yields-now, yielded, Yields-outcome, Yields-if, Yields-attempt_known, Idle,
  Yields-uuid_printer, Yields-pure, Yields-write_checked, Yields-read_one, Yields-bind,
  Yields-parse_uuid, Yields-check, Yields,
}
use abhiyan.Prelude.{
  ℕ, String, Bool, true, false, Option, none, some, ◌≡◌, refl, sym, subst, ap, ◌∙◌, find, ltb,
}
use abhiyan.Schema.Enums.{AttendanceFulfillmentStatus, fulfillment_of}
use abhiyan.Schema.{Store, Organization}
use abhiyan.Text.{is_blank, or_empty}
use abhiyan.Calendar.{current_date, ist_hour, attendance_fulfillment}
use abhiyan.Db.{◌>>=◌, Env, Db, Result, ok, err, pure, ignore, enqueue, value_or}
use abhiyan.Sql.Participants.{user_by_id}
use abhiyan.Sql.Memberships.{get_org_info, org_by_id}
use abhiyan.Sql.Attendance.{
  upsert_attendance_record, get_user_face_uri, is_record, upserted, upsert_as, face_of,
}
use abhiyan.Attendance.Marking.{
  Answer, accepted, forbidden, bad_request, internal_error, answer_marked, mark_attendance, mark_at,
  mark_on_time, mark_if_enabled, mark_with_face, upsert_record, user_face_uri,
  is_attendance_enabled,
}

-- The record for that user, organization and day, as the submission leaves it
abbrev pub Recorded : ℕ → ℕ → ℕ → String → Env → Store → Store → Type 0
Recorded u o at key env s0 s =
    (n : ℕ) × (f : AttendanceFulfillmentStatus) × (fulfillment_of (attendance_fulfillment at)
      ≡ some f)
    × (s
        ≡ (upserted (env.gen_uuid n) u o (current_date (env.clock n)) key f
            (find (is_record u o (current_date (env.clock n))) s0.attendance_records) s0).1)

abbrev pub HasFace : ℕ → Store → Type 0
HasFace u s =
    (uri : Option String) × (face_of (user_by_id u s) ≡ some uri)
    × (is_blank (or_empty uri) ≡ false)

abbrev pub Tracked : ℕ → Store → Type 0
Tracked o s = (row : Organization) × (org_by_id o s ≡ some row) × (row.attendance_enabled ≡ true)

abbrev pub Marked : String → String → String → Env → Store → Store → Type 0
Marked user org key env s0 s =
    (u : ℕ) × (o : ℕ) × (t : ℕ) × (env.parse_uuid user ≡ some u)
    × (env.parse_uuid org ≡ some o)
    × (ltb (ist_hour (env.clock t)) 7 ≡ false)
    × (is_blank key ≡ false)
    × Tracked o s0
    × HasFace u s0
    × Recorded u o (env.clock t) key env s0 s

-- What is claimed of an answer: nothing, unless the submission was accepted
abbrev pub OnAccept : (Store → Type 0) → Answer → Store → Type 0
OnAccept Q (accepted id) s = Q s
OnAccept Q forbidden s = Unit
OnAccept Q bad_request s = Unit
OnAccept Q internal_error s = Unit

upsert_as-some :
    (id u o d : ℕ) (key : String) (f : Option AttendanceFulfillmentStatus) (s0 s s' : Store) (i : ℕ)
    → s ≡ s0
    → upsert_as id u o d key f s ≡ some (i, s')
    → (g : AttendanceFulfillmentStatus) × (f ≡ some g)
      × (s' ≡ (upserted id u o d key g (find (is_record u o d) s0.attendance_records) s0).1)
upsert_as-some id u o d key none s0 s s' i same e = absurd cc
upsert_as-some id u o d key (some g) s0 s s' i same e =
    let left : (upserted id u o d key g (find (is_record u o d) s.attendance_records) s).1 ≡ s' =
      cc in
    (
      g,
      refl,
      sym left
          ∙ ap (λ z. (upserted id u o d key g (find (is_record u o d) z.attendance_records) z).1)
              same,
    )

module _ (env : Env) (s0 : Store) where
  recorded :
      (user org key : String) (at : ℕ)
      → Yields env
          (λ s. s ≡ s0)
          (upsert_record user org key (attendance_fulfillment at))
          (λ _ s.
            (u : ℕ) × (o : ℕ) × (env.parse_uuid user ≡ some u)
            × (env.parse_uuid org ≡ some o)
            × Recorded u o at key env s0 s)
  unfolding upsert_record upsert_attendance_record
  recorded user org key at = Yields-check _ _ (Yields-parse_uuid user) (λ u pu.
      Yields-check _ _ (Yields-parse_uuid org) (λ o po.
        Yields-bind _ _
          (Yields-write_checked {Q = λ _ s. Recorded u o at key env s0 s} _ (λ n s same i s' e.
            let (g, known, left) =
              upsert_as-some (env.gen_uuid n) u o (current_date (env.clock n)) key
                (fulfillment_of (attendance_fulfillment at)) s0 s s' i same e in
            (n, g, known, left)))
          (λ i.
            Yields-bind _ _ Yields-uuid_printer
              (λ print. Yields-pure _ (λ s h. (u, o, pu, po, h.0))))))

  answered :
      (Q : Store → Type 0) (source key : String) (r : Result String)
      → Yields env (λ s. (a : String) → r ≡ ok a → Q s) (answer_marked source key r) (OnAccept Q)
  unfolding answer_marked ignore enqueue pure ◌>>=◌
  answered Q source key (err e) = record { at = λ db i p. (i, tt) }
  answered Q source key (ok id) = record { at = λ db i p. (i, p id refl) }

  face :
      (user : String)
      → Yields env
          (λ s. s ≡ s0)
          (user_face_uri user)
          (λ source s.
            (s ≡ s0)
            × ((u : ℕ) × (uri : Option String) × (env.parse_uuid user ≡ some u)
                × (face_of (user_by_id u s0) ≡ some uri)
                × (source ≡ or_empty uri)))
  unfolding user_face_uri get_user_face_uri
  face user = Yields-check _ _ (Yields-parse_uuid user) (λ u pu.
      Yields-check _ _ (Yields-read_one _)
        (λ uri e. Yields-pure _ (λ s h. (h, (u, uri, pu, e, refl)))))

  pub enabled_known :
      (org : String)
      → Yields env
          (λ s. s ≡ s0)
          (is_attendance_enabled org)
          (λ on s.
            (s ≡ s0)
            × ((o : ℕ) × (row : Organization) × (env.parse_uuid org ≡ some o)
                × (org_by_id o s0 ≡ some row)
                × (on ≡ row.attendance_enabled)))
  unfolding is_attendance_enabled get_org_info
  enabled_known org = Yields-check _ _ (Yields-parse_uuid org) (λ o po.
      Yields-check _ _ (Yields-read_one _)
        (λ row e. Yields-pure _ (λ s h. (h, (o, row, po, e, refl)))))

OnAccept-mono :
    (Q R : Store → Type 0) (a : Answer) (s : Store) → (Q s → R s) → OnAccept Q a s → OnAccept R a s
OnAccept-mono Q R (accepted id) s q h = q h
OnAccept-mono Q R forbidden s q h = tt
OnAccept-mono Q R bad_request s q h = tt
OnAccept-mono Q R internal_error s q h = tt

abbrev WithFace : String → String → String → ℕ → String → Env → Store → Store → Type 0
WithFace user org key at source env s0 s =
    (is_blank source ≡ false)
    × ((u : ℕ) × (o : ℕ) × (env.parse_uuid user ≡ some u)
        × (env.parse_uuid org ≡ some o)
        × Recorded u o at key env s0 s)

abbrev Enabled : String → String → String → ℕ → Env → Store → Store → Type 0
Enabled user org key at env s0 s =
    (u : ℕ) × (o : ℕ) × (env.parse_uuid user ≡ some u)
    × (env.parse_uuid org ≡ some o)
    × HasFace u s0
    × Recorded u o at key env s0 s

module _ (env : Env) (s0 : Store) (user org key : String) where
  with_face :
      (at : ℕ) (source : String)
      → Yields env
          (λ s. s ≡ s0)
          (mark_with_face at user org key source)
          (OnAccept (WithFace user org key at source env s0))
  unfolding mark_with_face
  with_face at source =
      Yields-if (is_blank source) _ _ (λ e. Yields-pure bad_request (λ s h. tt))
        (λ e. Yields-bind _ _ (Yields-outcome _ (recorded env s0 user org key at)) (λ r.
          Yields-mono _
            (λ a s h. OnAccept-mono _ (WithFace user org key at source env s0) a s (λ q. (e, q)) h)
            (answered env s0
              (λ s.
                (u : ℕ) × (o : ℕ) × (env.parse_uuid user ≡ some u)
                × (env.parse_uuid org ≡ some o)
                × Recorded u o at key env s0 s)
              source key r)))

  face_known :
      (at : ℕ) (found : Option String) (s : Store)
      → ((v : String)
          → found ≡ some v
          → (u : ℕ) × (uri : Option String) × (env.parse_uuid user ≡ some u)
            × (face_of (user_by_id u s0) ≡ some uri)
            × (v ≡ or_empty uri))
      → WithFace user org key at (value_or "" found) env s0 s
      → Enabled user org key at env s0 s
  face_known at none s known (e, h) = absurd cc
  face_known at (some v) s known (e, (u, o, pu, po, left)) =
      let (u', uri, pu', has, same) = known v refl in
      let own : u' ≡ u = cc in
      (
        u,
        o,
        pu,
        po,
        subst (λ i. HasFace i s0) own (uri, has, subst (λ z. is_blank z ≡ false) same e),
        left,
      )

  when_tracked :
      (b : Bool) (at : ℕ)
      → Yields env
          (λ s. s ≡ s0)
          (mark_if_enabled b at user org key)
          (OnAccept (λ s. (b ≡ true) × Enabled user org key at env s0 s))
  unfolding mark_if_enabled
  when_tracked false at = Yields-pure forbidden (λ s h. tt)
  when_tracked true at =
      Yields-check _ _ (Yields-attempt_known _ (face-Quiet user) (face env s0 user)) (λ found known.
        Yields-mono _
          (λ a s h.
            OnAccept-mono _ (λ s. (true ≡ true) × Enabled user org key at env s0 s) a s
              (λ q. (refl, face_known at found s known q)) h)
          (with_face at (value_or "" found)))

  tracked :
      (found : Option Bool)
      → ((v : Bool)
          → found ≡ some v
          → (o : ℕ) × (row : Organization) × (env.parse_uuid org ≡ some o)
            × (org_by_id o s0 ≡ some row)
            × (v ≡ row.attendance_enabled))
      → value_or false found ≡ true
      → (o : ℕ) → env.parse_uuid org ≡ some o
      → Tracked o s0
  tracked none known on o po = absurd cc
  tracked (some v) known on o po =
      let (o', row, po', found, same) = known v refl in
      let own : o' ≡ o = cc in subst (λ i. Tracked i s0) own (row, found, sym same ∙ on)

-- A submission that is accepted was made at seven in the morning in India or later, with a key, by a
-- user with a registered face, in an organization that tracks attendance. It adds a record for the
-- user, the organization and the server's day, or sets the one that is there, and changes nothing
-- else: the record is pending, with the key, and a full day before noon in India and half a day from
-- then on.
pub mark_attendance-Marked :
    (user org key : String) (env : Env) (db : Db) {id : String}
    → Idle db
    → (mark_attendance user org key env db).0 ≡ ok (accepted id)
    → Marked user org key env db.store (mark_attendance user org key env db).1.store
unfolding mark_attendance mark_at mark_on_time
mark_attendance-Marked user org key env db idle h =
    yielded {Q = OnAccept (λ s. Marked user org key env db.store s)} (mark_attendance user org key)
      db
      (Yields-check _ _ Yields-now (λ at clock.
        Yields-if (ltb (ist_hour at) 7) _ _ (λ early. Yields-pure forbidden (λ s e. tt))
          (λ late.
            Yields-if (is_blank key) _ _ (λ blank. Yields-pure bad_request (λ s e. tt))
              (λ given.
                Yields-check _ _
                  (Yields-attempt_known _ (enabled-Quiet org) (enabled_known env db.store org))
                  (λ found known.
                    Yields-mono _
                      (λ a s e.
                        OnAccept-mono _ (λ s. Marked user org key env db.store s) a s
                          (λ q.
                            let (t, same) = clock in
                            let (u, o, pu, po, has, left) = q.1 in
                            (
                              u,
                              o,
                              t,
                              pu,
                              po,
                              subst (λ i. ltb (ist_hour i) 7 ≡ false) same late,
                              given,
                              tracked env db.store user org key found known q.0 o po,
                              has,
                              subst (λ i. Recorded u o i key env db.store s) same left,
                            ))
                          e)
                      (when_tracked env db.store user org key (value_or false found) at))))))
      idle refl h
