-- ===== src/Tasks/Reminders.antt =====
-- The reminders of a request, as every operation of server/internal/services/tasks.go rebuilds
-- them: `_, _ = qtx.CreateReminder(…)` for each. Only CreateTask stops at an error.
use abhiyan.Prelude.{ℕ, String, false, Option, none, some, List}
use abhiyan.Db.{M, ignore, for_each}
use abhiyan.Sql.Reminders.{CreateReminderParams, create_reminder}

-- schemas.CreateReminderPayload; a value that is not negative
pub record CreateReminderPayload : Type 0 where
  pub scheduled_at : ℕ
  pub channel : String
  pub recurrence_value : Option ℕ
  pub recurrence_unit : Option String

-- Both or neither
abbrev pub recurrence : Option ℕ → Option String → Option (ℕ × String)
recurrence (some v) (some u) = some (v, u)
recurrence _ _ = none

abbrev pub reminder_params : ℕ → CreateReminderPayload → CreateReminderParams
reminder_params task_id r = record {
  task_id = task_id;
  scheduled_at = r.scheduled_at;
  channel = r.channel;
  recurrence = recurrence r.recurrence_value r.recurrence_unit;
  is_system_spawned = false;
}

unfoldable pub rebuild_reminders : ℕ → List CreateReminderPayload → M (Unit {0})
rebuild_reminders task_id rs =
    for_each rs (λ r. ignore (create_reminder (reminder_params task_id r)))
