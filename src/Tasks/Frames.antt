-- ===== src/Tasks/Frames.antt =====
-- What the steps around a state change leave alone: notifications, timeline entries, reads and
-- files touch neither the tasks, nor the reminders, nor the scores.
use abhiyan.Prelude.{ℕ, String, Bool, true, false, Option, some, List, [], ◌∷◌}
use abhiyan.Schema.{Task, Reminder, EmployeeScore, Store}
use abhiyan.Db.Triples.{
  Keeps, keeps_rules, Triple-returning, Triple-ignore, Keeps-bind, Keeps-for_each, Keeps-if,
  Keeps-pure,
}
use abhiyan.Sql.Participants.{ParticipantRow}
use abhiyan.Sql.Notifications.{create_notification, create_task_card_notification}
use abhiyan.Sql.Tasks.{add_task_update}
use abhiyan.Sql.Tasks.{get_task_details_for_notifications}
use abhiyan.Sql.Participants.{get_task_participants, get_task_assignee_phones}
use abhiyan.Schema.{Attachment}
use abhiyan.Sql.Attachments.{
  insert_attachment, insert_transcription, insert_audio_transcode, get_task_attachments,
  delete_attachments_by_ids,
}
use abhiyan.Tasks.Action.{post_note}
use abhiyan.Tasks.Files.{
  Link, AttachmentPayload, queue_audio, insert_attachment_with_transcription, insert_new,
  delete_gone, diff_attachments,
}
use abhiyan.Tasks.Notify.{notify_participant, notify_participants_with_card}

-- A statement about those three tables only
abbrev pub Core : (List Task → List Reminder → List EmployeeScore → Type 0) → Store → Type 0
Core R s = R s.tasks s.reminders s.employee_scores

module _ (R : List Task → List Reminder → List EmployeeScore → Type 0) where
  notify_participant-Core :
      (o t a : ℕ) (x y z w : String) (p : ParticipantRow)
      → Keeps (Core R) (notify_participant o t a x y z w p)
  unfolding notify_participant create_notification create_task_card_notification
  notify_participant-Core o t a x y z w p = search keeps_rules

  pub notify-Core :
      (o t a : ℕ) (ps : List ParticipantRow) (x y z w : String)
      → Keeps (Core R) (notify_participants_with_card o t a ps x y z w)
  unfolding notify_participants_with_card
  notify-Core o t a ps x y z w = Keeps-for_each ps _ (notify_participant-Core o t a x y z w)

  pub add_task_update-Core :
      (t : ℕ) (u : Option ℕ) (c : String) → Keeps (Core R) (add_task_update t u c)
  unfolding add_task_update
  add_task_update-Core t u c = search keeps_rules

  pub get_title-Core : (t : ℕ) → Keeps (Core R) (get_task_details_for_notifications t)
  unfolding get_task_details_for_notifications
  get_title-Core t = search keeps_rules

  pub get_participants-Core : (t : ℕ) → Keeps (Core R) (get_task_participants t)
  unfolding get_task_participants
  get_participants-Core t = search keeps_rules

  pub get_phones-Core : (t : ℕ) → Keeps (Core R) (get_task_assignee_phones t)
  unfolding get_task_assignee_phones
  get_phones-Core t = search keeps_rules

  pub post_note-Core : (t u : ℕ) (x y : String) → Keeps (Core R) (post_note t u x y)
  unfolding post_note
  post_note-Core t u x y =
      Keeps-if _ _ _ (Keeps-pure tt) (Triple-ignore _ (add_task_update-Core t (some u) _))

  queue_audio-Core : (b : Bool) (i : ℕ) → Keeps (Core R) (queue_audio b i)
  unfolding queue_audio insert_transcription insert_audio_transcode
  queue_audio-Core true i = search keeps_rules
  queue_audio-Core false i = Keeps-pure tt

  pub insert_attachment-Core :
      (l : Link) (u : ℕ) (a : AttachmentPayload)
      → Keeps (Core R) (insert_attachment_with_transcription l u a)
  unfolding insert_attachment_with_transcription insert_attachment
  insert_attachment-Core l u a =
      Keeps-bind _ _ (Triple-returning _ (λ env t s h. h)) (λ i. queue_audio-Core _ i)

  insert_new-Core : (t u : ℕ) (a : AttachmentPayload) → Keeps (Core R) (insert_new t u a)
  unfolding insert_new
  insert_new-Core t u a =
      Keeps-if _ _ _ (Triple-ignore _ (insert_attachment-Core (Link.task t) u a)) (Keeps-pure tt)

  delete_gone-Core : (es : List Attachment) → Keeps (Core R) (delete_gone es)
  unfolding delete_gone delete_attachments_by_ids
  delete_gone-Core [] = Keeps-pure tt
  delete_gone-Core (e ∷ es) = search keeps_rules

  pub diff_attachments-Core :
      (t u : ℕ) (files : List AttachmentPayload) → Keeps (Core R) (diff_attachments t u files)
  unfolding diff_attachments get_task_attachments
  diff_attachments-Core t u files = search (keeps_rules, delete_gone-Core, insert_new-Core) depth 16
