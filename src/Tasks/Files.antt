-- ===== src/Tasks/Files.antt =====
-- insertAttachmentWithTranscription and diffAttachments of server/internal/services/tasks.go, and
-- the deletion from S3 that their callers start after COMMIT.
use abhiyan.Prelude.{
  ℕ, String, Bool, true, false, ◌&&◌, not, none, some, List, [], ◌∷◌, map, filter, any, str_eq,
  if◌then◌else◌,
}
use abhiyan.Schema.{Attachment}
use abhiyan.Text.{has_prefix, is_blank}
use abhiyan.Db.{
  M, pure, ◌>>=◌, ◌>>◌, ignore, attempt, value_or, enqueue, for_each, uuid_printer, delete_objects,
}
use abhiyan.Sql.Attachments.{
  insert_attachment, insert_transcription, insert_audio_transcode, get_task_attachments,
  delete_attachments_by_ids,
}

-- schemas.AttachmentPayload, without what only responses carry
pub record AttachmentPayload : Type 0 where
  pub id : String
  pub file_name : String
  pub file_url : String
  pub file_type : String
  pub file_size : ℕ

-- What an attachment hangs on
pub data Link : Type 0 where
  task update comment : ℕ → Link

abbrev pub attachment_row : Link → ℕ → AttachmentPayload → ℕ → Attachment
attachment_row (task t) uploader a id = record {
  id = id;
  task_id = some t;
  task_update_id = none;
  task_comment_id = none;
  file_name = a.file_name;
  file_url = a.file_url;
  file_type = a.file_type;
  file_size_bytes = some a.file_size;
  uploaded_by = uploader;
}
attachment_row (update u) uploader a id = record {
  id = id;
  task_id = none;
  task_update_id = some u;
  task_comment_id = none;
  file_name = a.file_name;
  file_url = a.file_url;
  file_type = a.file_type;
  file_size_bytes = some a.file_size;
  uploaded_by = uploader;
}
attachment_row (comment c) uploader a id = record {
  id = id;
  task_id = none;
  task_update_id = none;
  task_comment_id = some c;
  file_name = a.file_name;
  file_url = a.file_url;
  file_type = a.file_type;
  file_size_bytes = some a.file_size;
  uploaded_by = uploader;
}

unfoldable pub queue_audio : Bool → ℕ → M (Unit {0})
queue_audio true id = do ignore (insert_transcription id); ignore (insert_audio_transcode id)
queue_audio false id = pure tt

unfoldable pub insert_attachment_with_transcription : Link → ℕ → AttachmentPayload → M (Unit {0})
unfolding queue_audio
insert_attachment_with_transcription link uploader a = do
  id ← insert_attachment (attachment_row link uploader a)
  queue_audio (has_prefix a.file_type "audio/") id

-- incomingIDs[e.ID.String()]
abbrev pub is_kept : (ℕ → String) → List AttachmentPayload → Attachment → Bool
is_kept print incoming e = any (λ a. not (is_blank a.id) && str_eq a.id (print e.id)) incoming

unfoldable pub delete_gone : List Attachment → M (Unit {0})
delete_gone [] = pure tt
delete_gone (e ∷ es) = ignore (delete_attachments_by_ids (map (λ a. a.id) (e ∷ es)))

unfoldable pub insert_new : ℕ → ℕ → AttachmentPayload → M (Unit {0})
insert_new task_id uploader a =
    if is_blank a.id
    then ignore (insert_attachment_with_transcription (task task_id) uploader a)
    else pure tt

-- The files to delete from S3 are returned.
unfoldable pub diff_attachments : ℕ → ℕ → List AttachmentPayload → M (List String)
unfolding delete_gone insert_new insert_attachment_with_transcription
diff_attachments task_id uploader incoming = do
  existing ← attempt (get_task_attachments task_id)
  print ← uuid_printer
  let gone = filter (λ e. not (is_kept print incoming e)) (value_or [] existing)
  delete_gone gone
  for_each incoming (insert_new task_id uploader)
  pure (map (λ a. a.file_url) gone)

unfoldable pub delete_from_s3 : List String → M (Unit {0})
delete_from_s3 [] = pure tt
delete_from_s3 (u ∷ us) = enqueue (delete_objects (u ∷ us))
