-- ===== src/Tasks/Post.antt =====
-- PostTaskUpdate of server/internal/services/tasks.go.
use abhiyan.Prelude.{
  ℕ, String, Bool, ◌&&◌, not, Option, none, some, List, [], ◌∷◌, ◌==◌, ltb, filter, find, any,
  str_eq, if◌then◌else◌,
}
use abhiyan.Text.{◌<>◌, full_name, byte_length, take_bytes}
use abhiyan.Db.{
  M, pure, ◌>>=◌, ◌>>◌, parse_uuid, attempt, ignore, value_or, transaction, for_each, uuid_printer,
}
use abhiyan.Sql.Tasks.{add_task_update, get_task_details_for_notifications}
use abhiyan.Sql.Updates.{create_notification_text}
use abhiyan.Sql.Participants.{ParticipantRow, get_task_participants}
use abhiyan.Tasks.Guards.{assert_task_in_org, assert_users_in_org}
use abhiyan.Tasks.Create.{with_parsed}
use abhiyan.Tasks.Files.{Link, AttachmentPayload, insert_attachment_with_transcription}

-- schemas.AddTaskUpdateRequest; AddCommentRequest has the same fields.
pub record PostRequest : Type 0 where
  pub content : String
  pub mentioned_user_ids : List String
  pub attachments : List AttachmentPayload

abbrev pub named : Option ParticipantRow → String
named none = "Someone"
named (some p) = full_name p.first_name p.last_name

abbrev pub author_name : ℕ → List ParticipantRow → String
author_name user_id ps = named (find (λ p. p.id == user_id) ps)

abbrev pub appended : String → Option String → String → Option String
appended before none after = none
appended before (some s) after = some (before <> s <> after)

-- The content, or its first 37 bytes where it has more than 40. A slice that cuts a character is
-- no text.
unfoldable pub snippet : String → Option String
snippet content =
    if ltb 40 (byte_length content) then appended "" (take_bytes 37 content) "..." else some content

-- `continue` where the text is no id
unfoldable pub notify_mentioned : ℕ → String → Option String → Option ℕ → M (Unit {0})
notify_mentioned org_id name text user =
    with_parsed
      (λ user_id. ignore (
        create_notification_text user_id org_id "You were mentioned!"
          (appended (name <> " mentioned you: ") text "")))
      user

abbrev pub mentioned_if : Option ℕ → String → List String → List String
mentioned_if none mention rest = rest
mentioned_if (some user_id) mention rest = mention ∷ rest

-- The loop over the mentions; it returns the keys of mentionedMap, which are the texts that parse.
unfoldable pub notify_mentions : ℕ → String → Option String → List String → M (List String)
notify_mentions org_id name text [] = pure []
notify_mentions org_id name text (mention ∷ mentions) = do
  user ← attempt (parse_uuid mention)
  notify_mentioned org_id name text user
  rest ← notify_mentions org_id name text mentions
  pure (mentioned_if user mention rest)

-- `p.ID != uID && !mentionedMap[p.ID.String()]`
abbrev pub hears_update : (ℕ → String) → ℕ → List String → ParticipantRow → Bool
hears_update print user_id mentioned p =
    not (p.id == user_id) && not (any (λ m. str_eq m (print p.id)) mentioned)

unfoldable pub notify_update : ℕ → String → String → Option String → ParticipantRow → M (Unit {0})
notify_update org_id task_title name text p = ignore (
    create_notification_text p.id org_id ("Update: " <> task_title)
      (appended (name <> " posted: ") text ""))

unfoldable pub post_notify : ℕ → ℕ → PostRequest → String → List ParticipantRow → M (Unit {0})
post_notify org_id user_id req task_title ps = do
  let name = author_name user_id ps
  let text = snippet req.content
  mentioned ← notify_mentions org_id name text req.mentioned_user_ids
  print ← uuid_printer
  for_each (filter (hears_update print user_id mentioned) ps)
      (notify_update org_id task_title name text)

-- What follows the timeline entry, up to COMMIT
unfoldable pub post_rest : ℕ → ℕ → ℕ → PostRequest → ℕ → M (Unit {0})
post_rest task_id org_id user_id req update_id = do
  for_each req.attachments
      (λ a. ignore (insert_attachment_with_transcription (Link.update update_id) user_id a))
  task_title ← attempt (get_task_details_for_notifications task_id)
  ps ← attempt (get_task_participants task_id)
  post_notify org_id user_id req (value_or "" task_title) (value_or [] ps)

unfoldable pub post_body : ℕ → ℕ → PostRequest → ℕ → M (Unit {0})
post_body task_id org_id req user_id = do
  update_id ← add_task_update task_id (some user_id) req.content
  post_rest task_id org_id user_id req update_id

unfoldable pub post_task_update : String → String → PostRequest → String → M (Unit {0})
post_task_update task user req caller = do
  task_id ← parse_uuid task
  org_id ← parse_uuid caller
  assert_task_in_org task_id org_id
  assert_users_in_org req.mentioned_user_ids org_id
  transaction (parse_uuid user >>= post_body task_id org_id req)
