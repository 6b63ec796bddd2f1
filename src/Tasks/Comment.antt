-- ===== src/Tasks/Comment.antt =====
-- PostUpdateComment of server/internal/services/tasks.go. What its goroutine sends after COMMIT is
-- run at the end of the call.
use abhiyan.Prelude.{
  ℕ, String, Bool, ◌&&◌, not, Option, none, some, List, [], ◌∷◌, ◌==◌, any, str_eq, filter,
  if◌then◌else◌,
}
use abhiyan.Text.{◌<>◌, full_name, is_blank}
use abhiyan.Db.{
  M, pure, ◌>>=◌, ◌>>◌, parse_uuid, attempt, ignore, value_or, transaction, for_each, uuid_printer,
}
use abhiyan.Sql.Tasks.{get_task_details_for_notifications}
use abhiyan.Sql.Updates.{add_update_comment, get_task_update_author}
use abhiyan.Sql.Orgs.{get_user_name_by_id}
use abhiyan.Sql.Notifications.{create_notification}
use abhiyan.Tasks.Guards.{assert_task_in_org, assert_users_in_org}
use abhiyan.Tasks.Create.{with_parsed}
use abhiyan.Tasks.Post.{PostRequest}
use abhiyan.Tasks.Files.{Link, insert_attachment_with_transcription}

-- uniqueMentionedIds: the first of each text
unfoldable pub unique : List String → List String
unique [] = []
unique (x ∷ xs) = x ∷ filter (λ y. not (str_eq y x)) (unique xs)

abbrev pub comment_author : Option (Option String × Option String) → String
comment_author found =
    let (first, last) = value_or (none, none) found in
    let name = full_name first last in if is_blank name then "Someone" else name

unfoldable pub notify_comment_mention : ℕ → String → String → String → M (Unit {0})
notify_comment_mention org_id name task_title mention = do
  user ← attempt (parse_uuid mention)
  with_parsed
      (λ user_id. ignore (
        create_notification user_id org_id "Mentioned in comment!"
          (name <> " mentioned you in a comment on: " <> task_title)))
      user

-- The zero uuid where the column is NULL
abbrev pub uuid_or_nil : Option ℕ → ℕ
uuid_or_nil none = 0
uuid_or_nil (some id) = id

abbrev pub hears_comment : (ℕ → String) → ℕ → List String → ℕ → Bool
hears_comment print commenter mentions author =
    not (author == commenter) && not (any (λ m. str_eq m (print author)) mentions)

unfoldable pub notify_author : ℕ → ℕ → List String → (ℕ → String) → Option (Option ℕ) → M (Unit {0})
notify_author org_id commenter mentions print none = pure tt
notify_author org_id commenter mentions print (some author) =
    if hears_comment print commenter mentions (uuid_or_nil author)
    then ignore (
        create_notification (uuid_or_nil author) org_id "New comment on your task update"
          "Someone replied to your task update.")
    else pure tt

-- The goroutine
unfoldable pub comment_sent : ℕ → ℕ → ℕ → ℕ → PostRequest → M (Unit {0})
comment_sent task_id org_id update_id commenter req = do
  task_title ← attempt (get_task_details_for_notifications task_id)
  found ← attempt (get_user_name_by_id commenter)
  for_each (unique req.mentioned_user_ids)
      (notify_comment_mention org_id (comment_author found) (value_or "" task_title))
  author ← attempt (get_task_update_author update_id)
  print ← uuid_printer
  notify_author org_id commenter req.mentioned_user_ids print author

unfoldable pub comment_body : PostRequest → ℕ → ℕ → M (ℕ × ℕ)
comment_body req update_id commenter = do
  comment_id ← add_update_comment update_id (some commenter) req.content
  for_each req.attachments
      (insert_attachment_with_transcription (Link.comment comment_id) commenter)
  pure (update_id, commenter)

unfoldable pub post_update_comment : String → String → String → PostRequest → String → M (Unit {0})
post_update_comment task update user req caller = do
  task_id ← parse_uuid task
  org_id ← parse_uuid caller
  assert_task_in_org task_id org_id
  assert_users_in_org req.mentioned_user_ids org_id
  ids ←
      transaction
        (parse_uuid update >>= λ update_id. parse_uuid user >>= comment_body req update_id)
  ignore (comment_sent task_id org_id ids.0 ids.1 req)
