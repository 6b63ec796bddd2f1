-- ===== src/Sql/Updates.antt =====
-- The queries on the comments of `task_updates` (server/internal/db/sqlc/task.sql.go), and the
-- notification whose text the server may refuse.
use abhiyan.Prelude.{ℕ, String, Option, none, some, [], ◌∷◌, ◌++◌, ◌==◌, find}
use abhiyan.Schema.{Store, TaskUpdate}
use abhiyan.Db.{M, select_one, returning, write_checked}
use abhiyan.Sql.Notifications.{notification, notified}

unfoldable pub add_update_comment : ℕ → Option ℕ → String → M ℕ
add_update_comment update_id user_id content = returning (λ env t s. (
  env.gen_uuid t,
  record s {
    task_update_comments =
        s.task_update_comments
        ++ record {
          id = env.gen_uuid t;
          task_update_id = update_id;
          user_id = user_id;
          content = content;
        }
          ∷ [];
  },
))

abbrev pub author_of : Option TaskUpdate → Option (Option ℕ)
author_of none = none
author_of (some u) = some u.user_id

unfoldable pub get_task_update_author : ℕ → M (Option ℕ)
get_task_update_author id = select_one (λ s. author_of (find (λ u. u.id == id) s.task_updates))

abbrev pub notify_text : ℕ → ℕ → String → Option String → ℕ → Store → Option (Unit {0} × Store)
notify_text user_id org_id title none id s = none
notify_text user_id org_id title (some message) id s =
    some (tt, notified (notification id user_id org_id title message none) s)

-- CreateNotification, with a message that is not valid UTF-8 where it is `none`: PostgreSQL
-- refuses such a text.
unfoldable pub create_notification_text : ℕ → ℕ → String → Option String → M (Unit {0})
create_notification_text user_id org_id title message =
    write_checked (λ env t. notify_text user_id org_id title message (env.gen_uuid t))
