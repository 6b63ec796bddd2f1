-- ===== src/Sql/Reminders.antt =====
-- The queries on `reminders` of server/internal/db/sqlc/task.sql.go.
use abhiyan.Prelude.{
  ℕ, String, Bool, ◌&&◌, not, Option, none, some, [], ◌∷◌, ◌++◌, ◌==◌, ltb, ◌%◌, ◌^◌, filter,
  update_where, if◌then◌else◌,
}
use abhiyan.Schema.Enums.{
  ReminderStatus, RecurrenceUnit, is_pending, reminder_channel_of, recurrence_unit_of,
}
use abhiyan.Schema.{Reminder, Store}
use abhiyan.Db.{M, exec, write_checked}

unfoldable pub delete_task_reminders : ℕ → M (Unit {0})
delete_task_reminders id =
    exec (λ env t s. record s { reminders = filter (λ r. not (r.task_id == id)) s.reminders })

abbrev pub cancelled_row : Reminder → Reminder
cancelled_row r = record r { status = some ReminderStatus.cancelled }

unfoldable pub cancel_task_reminders : ℕ → M (Unit {0})
cancel_task_reminders id = exec (λ env t s. record s {
  reminders =
      update_where (λ r. (r.task_id == id) && is_pending r.status) cancelled_row s.reminders;
})

-- CreateReminderParams. The channel and the unit are the client's texts, cast without a check.
pub record CreateReminderParams : Type 0 where
  pub task_id : ℕ
  pub scheduled_at : ℕ
  pub channel : String
  pub recurrence : Option (ℕ × String)
  pub is_system_spawned : Bool

-- int32(v) of a value that is not negative, where the CHECK `recurrence_value > 0` lets it in.
abbrev pub recurrence_value_of : ℕ → Option ℕ
recurrence_value_of v = let w = v % 2 ^ 32 in if ltb 0 w && ltb w (2 ^ 31) then some w else none

abbrev pub recurrence_of : Option (ℕ × String) → Option (Option ℕ × Option RecurrenceUnit)
recurrence_of none = some (none, none)
recurrence_of (some (v, u)) = elim (recurrence_value_of v) [
  | none ↦ none
  | some w ↦ elim (recurrence_unit_of u) [ none ↦ none | some unit ↦ some (some w, some unit) ]
]

-- The row that is inserted, or none where a type or the CHECK refuses it.
unfoldable pub reminder_row : ℕ → CreateReminderParams → Option Reminder
unfolding reminder_channel_of recurrence_unit_of
reminder_row id p = elim (reminder_channel_of p.channel) [
  | none ↦ none
  | some ch ↦ elim (recurrence_of p.recurrence) [
    | none ↦ none
    | some (v, u) ↦ some (record {
      id = id;
      task_id = p.task_id;
      scheduled_at = p.scheduled_at;
      channel = ch;
      status = some ReminderStatus.pending;
      recurrence_value = v;
      recurrence_unit = u;
      is_system_spawned = p.is_system_spawned;
    })
  ]
]

abbrev pub insert_reminder : ℕ → CreateReminderParams → Store → Option (Unit {0} × Store)
insert_reminder id p s = elim (reminder_row id p) [
  | none ↦ none
  | some r ↦ some (tt, record s { reminders = s.reminders ++ r ∷ [] })
]

unfoldable pub create_reminder : CreateReminderParams → M (Unit {0})
unfolding reminder_row
create_reminder p = write_checked (λ env t. insert_reminder (env.gen_uuid t) p)
