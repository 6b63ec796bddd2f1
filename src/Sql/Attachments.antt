-- ===== src/Sql/Attachments.antt =====
-- The queries on `attachments` (server/internal/db/sqlc/task.sql.go) and on what is queued for
-- their audio (transcriptions.sql.go, audio_transcodes.sql.go).
use abhiyan.Prelude.{
  ℕ, Bool, true, false, ◌&&◌, not, Option, none, some, List, [], ◌∷◌, ◌++◌, ◌==◌, filter, any,
  if◌then◌else◌,
}
use abhiyan.Schema.{Attachment}
use abhiyan.Db.{M, exec, select, returning}

abbrev pub is_some_id : ℕ → Option ℕ → Bool
is_some_id id none = false
is_some_id id (some j) = j == id

abbrev pub is_null : Option ℕ → Bool
is_null none = true
is_null (some j) = false

-- InsertAttachmentParams; the id is the database's.
unfoldable pub insert_attachment : (ℕ → Attachment) → M ℕ
insert_attachment row = returning (λ env t s.
    (env.gen_uuid t, record s { attachments = s.attachments ++ row (env.gen_uuid t) ∷ [] }))

-- ON CONFLICT (attachment_id) DO NOTHING
abbrev pub with_id : ℕ → List ℕ → List ℕ
with_id id xs = if any (λ x. x == id) xs then xs else xs ++ id ∷ []

unfoldable pub insert_transcription : ℕ → M (Unit {0})
insert_transcription id =
    exec (λ env t s. record s { transcriptions = with_id id s.transcriptions })

unfoldable pub insert_audio_transcode : ℕ → M (Unit {0})
insert_audio_transcode id =
    exec (λ env t s. record s { audio_transcodes = with_id id s.audio_transcodes })

-- a.task_id = $1 AND a.task_update_id IS NULL
unfoldable pub get_task_attachments : ℕ → M (List Attachment)
get_task_attachments id =
    select
      (λ env t s. filter (λ a. is_some_id id a.task_id && is_null a.task_update_id) s.attachments)

abbrev pub is_one_of : List ℕ → ℕ → Bool
is_one_of ids i = any (λ j. j == i) ids

-- The rows of `transcriptions` and `audio_transcodes` are deleted with their attachment.
unfoldable pub delete_attachments_by_ids : List ℕ → M (Unit {0})
delete_attachments_by_ids ids = exec (λ env t s. record s {
  attachments = filter (λ a. not (is_one_of ids a.id)) s.attachments;
  transcriptions = filter (λ i. not (is_one_of ids i)) s.transcriptions;
  audio_transcodes = filter (λ i. not (is_one_of ids i)) s.audio_transcodes;
})
