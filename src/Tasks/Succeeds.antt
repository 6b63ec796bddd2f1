-- ===== src/Tasks/Succeeds.antt =====
-- Approving a task succeeds wherever it can: where the ids are good, the task is of the caller's
-- organization, and the server refuses no statement.
use abhiyan.Prelude.{
  ℕ, suc, String, true, false, Option, none, some, List, [], ◌∷◌, ◌++◌, ◌≡◌, refl, ◌==◌, ==_iff,
  arith,
}
use abhiyan.Schema.Enums.{is_missed}
use abhiyan.Schema.{Task, Store}
use abhiyan.Db.{lift, Env, Db, M, ok, ◌>>=◌, ◌>>◌, pure, parse_uuid, select_one}
use abhiyan.Db.Smooth.{
  Faultless, Smooth, Clean, smooth_rules, Clean-bind, Clean-pure, Clean-for_each, Smooth-Clean,
  Smooth-bind, Smooth-select_one, Clean-select, Clean-returning, Clean-exec, Clean-transaction,
  Clean-parse_uuid, Clean-write_checked,
}
use abhiyan.Sql.Tasks.{
  org_of_task, get_task_org_id, get_task_by_id, approve_task_state, add_task_update,
  get_task_details_for_notifications,
}
use abhiyan.Sql.Reminders.{delete_task_reminders}
use abhiyan.Sql.Participants.{
  AssigneeRow, ParticipantRow, get_task_participants, get_task_assignee_phones,
  get_task_assignees_with_context,
}
use abhiyan.Sql.Scores.{
  ScoreEvent, score_row, insert_score, insert_score_event, supersede_score_events,
}
use abhiyan.Sql.Notifications.{create_notification, create_task_card_notification}
use abhiyan.Scores.Points.{calculate_points}
use abhiyan.Scores.Record.{approve_assignee, approve_assignees, record_approval, approval_event}
use abhiyan.Tasks.Guards.{assert_task_in_org}
use abhiyan.Tasks.Notify.{
  notify_participant, notify_participants_with_card, notify_assignees_whatsapp, whatsapp_to,
}
use abhiyan.Tasks.Approve.{approve_rest, approve_body, approve_task}

never_missed :
    (approved due created : ℕ) → is_missed (calculate_points approved due created).0 ≡ false
unfolding calculate_points
never_missed approved due created = ground arith

accepted :
    (id : ℕ) (e : ScoreEvent) (s : Store)
    → is_missed e.event_type ≡ false
    → (r : ℕ × Store) × (insert_score id e s ≡ some r)
accepted id e s h =
    ((id, record s { employee_scores = s.employee_scores ++ score_row id e ∷ [] }), rw h refl)

same_test : (n : ℕ) → (n == n) ≡ true
same_test n = (==_iff n n).1 refl

module _ (env : Env) (calm : Faultless env) where
  supersede-Clean : (t u : ℕ) → Clean env (supersede_score_events t u)
  unfolding supersede_score_events
  supersede-Clean t u = Clean-exec {env = env} calm _

  award-Clean :
      (t at due : ℕ) (task : Task) (a : AssigneeRow)
      → Clean env (insert_score_event (approval_event t at due task a))
  unfolding insert_score_event
  award-Clean t at due task a = Clean-write_checked {env = env} calm _ (λ i s.
      accepted (env.gen_uuid i) (approval_event t at due task a) s
        (never_missed at due task.created_at))

  approve_assignee-Clean :
      (t at due : ℕ) (task : Task) (a : AssigneeRow) → Clean env (approve_assignee t at due task a)
  unfolding approve_assignee
  approve_assignee-Clean t at due task a = search (smooth_rules, supersede-Clean, award-Clean)

  assignees-Clean : (t : ℕ) → Clean env (get_task_assignees_with_context t)
  unfolding get_task_assignees_with_context
  assignees-Clean t = Clean-select {env = env} calm _

  approve_assignees-Clean :
      (t at : ℕ) (task : Task) (due : Option ℕ) → Clean env (approve_assignees t at task due)
  unfolding approve_assignees
  approve_assignees-Clean t at task none = Clean-pure tt
  approve_assignees-Clean t at task (some due) =
      search (smooth_rules, assignees-Clean, approve_assignee-Clean)

  record_approval-Smooth : (t at : ℕ) → Smooth env (record_approval t at)
  unfolding record_approval get_task_by_id
  record_approval-Smooth t at =
      Smooth-bind _ _ (Smooth-select_one {env = env} calm _)
        (λ task. Smooth-Clean _ (approve_assignees-Clean t at task task.due_date))

  notify_participant-Clean :
      (o t a : ℕ) (x y z w : String) (p : ParticipantRow)
      → Clean env (notify_participant o t a x y z w p)
  unfolding notify_participant create_notification create_task_card_notification
  notify_participant-Clean o t a x y z w p =
      search (smooth_rules, Clean-exec {env = env} calm) depth 10

  notify-Clean :
      (o t a : ℕ) (ps : List ParticipantRow) (x y z w : String)
      → Clean env (notify_participants_with_card o t a ps x y z w)
  unfolding notify_participants_with_card
  notify-Clean o t a ps x y z w = Clean-for_each ps _ (notify_participant-Clean o t a x y z w)

  title-Smooth : (t : ℕ) → Smooth env (get_task_details_for_notifications t)
  unfolding get_task_details_for_notifications
  title-Smooth t = Smooth-select_one {env = env} calm _

  participants-Clean : (t : ℕ) → Clean env (get_task_participants t)
  unfolding get_task_participants
  participants-Clean t = Clean-select {env = env} calm _

  phones-Clean : (t : ℕ) → Clean env (get_task_assignee_phones t)
  unfolding get_task_assignee_phones
  phones-Clean t = Clean-select {env = env} calm _

  entry-Clean : (t : ℕ) (u : Option ℕ) (text : String) → Clean env (add_task_update t u text)
  unfolding add_task_update
  entry-Clean t u text = Clean-returning {env = env} calm _

  approve_rest-Clean : (t o a : ℕ) → Clean env (approve_rest t o a)
  unfolding approve_rest
  approve_rest-Clean t o a =
      search
        (smooth_rules, entry-Clean, participants-Clean, phones-Clean, title-Smooth, notify-Clean)
        depth 16

  approve_body-Clean :
      (t o a : ℕ) (admin : String)
      → env.parse_uuid admin ≡ some a
      → Clean env (approve_body t o admin)
  unfolding approve_body approve_task_state delete_task_reminders
  approve_body-Clean t o a admin e = Clean-bind _ _ (Clean-parse_uuid {env = env} admin a e) (λ a'.
      search (smooth_rules, Clean-exec {env = env} calm, record_approval-Smooth, approve_rest-Clean)
        depth 16)

  phone-Clean : (p : Option String) (t s : String) → Clean env (whatsapp_to p t s)
  phone-Clean none t s = Clean-pure tt
  phone-Clean (some p) t s = search smooth_rules depth 10

  whatsapp-Clean :
      (ps : List (Option String)) (t s : String) → Clean env (notify_assignees_whatsapp ps t s)
  unfolding notify_assignees_whatsapp
  whatsapp-Clean ps t s = Clean-for_each ps _ (λ p. phone-Clean p t s)

  -- The checks pass, and go on.
  assert-then :
      (t o : ℕ) (k : M (Unit {0})) (db : Db)
      → org_of_task t db.store ≡ some o
      → db.aborted ≡ false
      → Clean env k
      → ((assert_task_in_org t o >> k) env db).0 ≡ ok tt
  unfolding assert_task_in_org get_task_org_id ◌>>=◌ select_one pure
  assert-then t o k db own h c =
      let (a, e, s) = c.at (record db { tick = suc db.tick; aborted = false }) refl in
      rw (h, calm db.tick, own, same_test o) e

-- Approving a task succeeds where its three ids are good, the task is of the caller's organization,
-- the server refuses no statement, and no transaction is left aborted from before.
pub approve_task_succeeds :
    (task admin caller : String) (env : Env) (db : Db) (t o a : ℕ)
    → Faultless env
    → env.parse_uuid task ≡ some t
    → env.parse_uuid admin ≡ some a
    → env.parse_uuid caller ≡ some o
    → org_of_task t db.store ≡ some o
    → db.aborted ≡ false
    → (approve_task task admin caller env db).0 ≡ ok tt
unfolding approve_task ◌>>=◌ parse_uuid lift
approve_task_succeeds task admin caller env db t o a calm et ea eo own h =
    rw (et, eo)
      (assert-then env calm t o _ db own h (
        Clean-bind _ _
          (Clean-transaction {env = env} calm _ (approve_body-Clean env calm t o a admin ea))
          (λ sent. whatsapp-Clean env calm sent.0 sent.1 _)))
