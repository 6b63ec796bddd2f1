-- ===== src/Sql/Notifications.antt =====
-- The queries of server/internal/db/sqlc/notifications.sql.go.
use abhiyan.Prelude.{
  ℕ, String, Bool, true, false, ◌&&◌, not, Option, none, some, [], ◌∷◌, ◌++◌, ◌==◌, filter,
  update_where,
}
use abhiyan.Schema.{Notification, Store}
use abhiyan.Db.{M, exec}

-- CreateNotificationParams, and with `card` CreateTaskCardNotificationParams.
abbrev pub notification : ℕ → ℕ → ℕ → String → String → Option (ℕ × String) → Notification
notification id user_id org_id title message none = record {
  id = id;
  user_id = user_id;
  org_id = org_id;
  title = title;
  message = message;
  is_read = false;
  task_id = none;
  card_kind = none;
}
notification id user_id org_id title message (some (task_id, kind)) = record {
  id = id;
  user_id = user_id;
  org_id = org_id;
  title = title;
  message = message;
  is_read = false;
  task_id = some task_id;
  card_kind = some kind;
}

abbrev pub notified : Notification → Store → Store
notified n s = record s { notifications = s.notifications ++ n ∷ [] }

unfoldable pub create_notification : ℕ → ℕ → String → String → M (Unit {0})
create_notification user_id org_id title message =
    exec (λ env t. notified (notification (env.gen_uuid t) user_id org_id title message none))

unfoldable pub create_task_card_notification : ℕ → ℕ → String → String → ℕ → String → M (Unit {0})
create_task_card_notification user_id org_id title message task_id kind = exec (λ env t.
    notified (notification (env.gen_uuid t) user_id org_id title message (some (task_id, kind))))

-- WHERE user_id = $1 AND org_id = $2
abbrev pub is_for : ℕ → ℕ → Notification → Bool
is_for user_id org_id n = (n.user_id == user_id) && (n.org_id == org_id)

abbrev pub read_row : Notification → Notification
read_row n = record n { is_read = true }

unfoldable pub mark_notifications_read : ℕ → ℕ → M (Unit {0})
mark_notifications_read user_id org_id = exec (λ env t s. record s {
  notifications = update_where (is_for user_id org_id) read_row s.notifications;
})

unfoldable pub clear_notifications : ℕ → ℕ → M (Unit {0})
clear_notifications user_id org_id = exec (λ env t s. record s {
  notifications = filter (λ n. not (is_for user_id org_id n)) s.notifications;
})

unfoldable pub mark_one_notification_read : ℕ → ℕ → ℕ → M (Unit {0})
mark_one_notification_read id user_id org_id = exec (λ env t s. record s {
  notifications =
      update_where (λ n. (n.id == id) && is_for user_id org_id n) read_row s.notifications;
})

abbrev pub dismissed_row : Notification → Notification
dismissed_row n = record n { card_kind = none }

unfoldable pub dismiss_task_card : ℕ → ℕ → ℕ → M (Unit {0})
dismiss_task_card id user_id org_id = exec (λ env t s. record s {
  notifications =
      update_where (λ n. (n.id == id) && is_for user_id org_id n) dismissed_row s.notifications;
})
