-- ===== src/Tasks/Notify.antt =====
-- notifyParticipantsWithCard and notifyAssigneesWhatsapp of server/internal/services/tasks.go.
use abhiyan.Prelude.{ℕ, String, Bool, ◌&&◌, not, Option, none, some, List, ◌==◌, if◌then◌else◌}
use abhiyan.Schema.Enums.{is_assignee}
use abhiyan.Text.{is_blank}
use abhiyan.Db.{M, pure, ignore, enqueue, for_each, send_task_status_whatsapp}
use abhiyan.Sql.Participants.{ParticipantRow}
use abhiyan.Sql.Notifications.{create_notification, create_task_card_notification}

-- An assignee other than the one who acts gets a card.
abbrev pub gets_card : ℕ → ParticipantRow → Bool
gets_card actor p = is_assignee p.tp_role && not (p.id == actor)

unfoldable pub notify_participant :
    ℕ → ℕ → ℕ → String → String → String → String → ParticipantRow → M (Unit {0})
notify_participant org_id task_id actor bell_title bell_msg card_kind card_msg p =
    if gets_card actor p
    then ignore (create_task_card_notification p.id org_id bell_title card_msg task_id card_kind)
    else ignore (create_notification p.id org_id bell_title bell_msg)

unfoldable pub notify_participants_with_card :
    ℕ → ℕ → ℕ → List ParticipantRow → String → String → String → String → M (Unit {0})
notify_participants_with_card org_id task_id actor ps bell_title bell_msg card_kind card_msg =
    for_each ps (notify_participant org_id task_id actor bell_title bell_msg card_kind card_msg)

abbrev pub whatsapp_to : Option String → String → String → M (Unit {0})
whatsapp_to none task_title status = pure tt
whatsapp_to (some phone) task_title status =
    if is_blank phone
    then pure tt
    else ignore (enqueue (send_task_status_whatsapp phone task_title status))

unfoldable pub notify_assignees_whatsapp : List (Option String) → String → String → M (Unit {0})
notify_assignees_whatsapp phones task_title status =
    for_each phones (λ phone. whatsapp_to phone task_title status)
