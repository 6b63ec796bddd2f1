-- ===== src/Tests/Notices.antt =====
-- Notifications on the small organization of Tests/Data.antt.
use abhiyan.Sql.Notifications.{create_task_card_notification, create_notification}
use abhiyan.Prelude.{some, none, List, [], ◌∷◌, ◌++◌, ◌≡◌, refl}
use abhiyan.Schema.Enums.{assignee, subscriber}
use abhiyan.Schema.{Notification}
use abhiyan.Sql.Participants.{ParticipantRow}
use abhiyan.Db.{statement, exec, ignore, pure, ◌>>=◌, for_each, ok, transaction}
use abhiyan.Tasks.Notify.{notify_participant, notify_participants_with_card}
use abhiyan.Tasks.Notices.{AreNotices, notify_participants-AreNotices}
use abhiyan.Tests.Data.{calm, server}

abbrev two : List ParticipantRow
two =
    record { tp_role = assignee; id = 8; first_name = some "Grace"; last_name = none }
    ∷ record { tp_role = subscriber; id = 7; first_name = some "Ada"; last_name = none }
    ∷ []

told :
    (transaction
      (notify_participants_with_card 100 1 7 two "Task Approved" "bell" "APPROVED" "card")
      calm
      server).0
    ≡ ok tt
unfolding transaction notify_participants_with_card for_each ◌>>=◌ pure ignore exec statement
    notify_participant create_notification create_task_card_notification
told = refl

notify_participants-AreNotices_example :
    (ns : List Notification) × AreNotices 100 1 7 "Task Approved" "bell" "APPROVED" "card" two ns
    × ((transaction
          (notify_participants_with_card 100 1 7 two "Task Approved" "bell" "APPROVED" "card")
          calm
          server).1.store.notifications
        ≡ server.store.notifications ++ ns)
notify_participants-AreNotices_example =
    notify_participants-AreNotices 100 1 7 two "Task Approved" "bell" "APPROVED" "card" calm server
      told
