-- ===== src/Tasks/Posting.antt =====
-- What posting an update and commenting on one leave alone: whatever does not speak of
-- notifications and files.
use abhiyan.Sql.Participants.{get_task_participants}
use abhiyan.Sql.Attachments.{insert_audio_transcode, insert_attachment, insert_transcription}
use abhiyan.Tasks.Comment.{notify_comment_mention, notify_author, comment_sent}
use abhiyan.Tasks.Files.{AttachmentPayload, Link, insert_attachment_with_transcription, queue_audio}
use abhiyan.Sql.Orgs.{get_user_name_by_id}
use abhiyan.Tasks.Create.{with_parsed}
use abhiyan.Sql.Tasks.{get_task_details_for_notifications}
use abhiyan.Db.{for_each, M}
use abhiyan.Prelude.{ℕ, String, Bool, true, false, Option, none, some, List, [], ◌∷◌, ◌≡◌, subst}
use abhiyan.Schema.{Attachment, Notification, Store}
use abhiyan.Db.Triples.{
  Triple-exec, Triple-returning, Keeps-for_each, Keeps, keeps_rules, Keeps-pure, Keeps-bind,
  Triple-ignore, Keeps-write_checked, Triple-attempt, Keeps-parse_uuid,
}
use abhiyan.Db.Always.{Always, Always-Quiet, Always-bind, Always-ignore, Always-exec, Always-if}
use abhiyan.Db.Rules.{
  Quiet-uuid_printer, Quiet-select_one, Quiet-parse_uuid, Quiet-attempt, Quiet-pure,
}
use abhiyan.Sql.Updates.{create_notification_text, notify_text, get_task_update_author}
use abhiyan.Sql.Notifications.{notification, notified, create_notification}
use abhiyan.Tasks.Editing.{parsed-Keeps}
use abhiyan.Tasks.Post.{
  post_rest, PostRequest, notify_mentioned, notify_mentions, notify_update, post_notify,
}

-- A statement on the tables but for the notifications, the attachments and what is queued for them
pub record Outside (P : Store → Type 0) : Type 0 where
  pub told : (s : Store) (ns : List Notification) → P s → P (record s { notifications = ns })
  pub filed : (s : Store) (xs : List Attachment) → P s → P (record s { attachments = xs })
  pub queued : (s : Store) (is : List ℕ) → P s → P (record s { transcriptions = is })
  pub transcoded : (s : Store) (is : List ℕ) → P s → P (record s { audio_transcodes = is })

module _ (P : Store → Type 0) (out : Outside P) where
  queue_audio-Outside : (b : Bool) (i : ℕ) → Keeps P (queue_audio b i)
  unfolding queue_audio insert_transcription insert_audio_transcode
  queue_audio-Outside true i =
      Keeps-bind _ _ (Triple-ignore _ (Triple-exec _ (λ env t s h. out.queued s _ h)))
        (λ _. Triple-ignore _ (Triple-exec _ (λ env t s h. out.transcoded s _ h)))
  queue_audio-Outside false i = Keeps-pure tt

  pub insert_attachment-Outside :
      (l : Link) (u : ℕ) (a : AttachmentPayload)
      → Keeps P (insert_attachment_with_transcription l u a)
  unfolding insert_attachment_with_transcription insert_attachment
  insert_attachment-Outside l u a =
      Keeps-bind _ _ (Triple-returning _ (λ env t s h. out.filed s _ h))
        (λ i. queue_audio-Outside _ i)

  text_kept :
      (id u o : ℕ) (x : String) (y : Option String) (s s' : Store) (z : Unit {0})
      → notify_text u o x y id s ≡ some (z, s')
      → P s
      → P s'
  text_kept id u o x none s s' z eq h = absurd cc
  text_kept id u o x (some y) s s' z eq h =
      let same : notified (notification id u o x y none) s ≡ s' = cc in
      subst P same (out.told s _ h)

  pub text-Outside :
      (u o : ℕ) (x : String) (y : Option String) → Keeps P (create_notification_text u o x y)
  unfolding create_notification_text
  text-Outside u o x y =
      Keeps-write_checked _ (λ env t s h z s' eq. text_kept (env.gen_uuid t) u o x y s s' z eq h)

  mentioned-Outside :
      (o : ℕ) (x : String) (y : Option String) (u : Option ℕ) → Keeps P (notify_mentioned o x y u)
  unfolding notify_mentioned
  mentioned-Outside o x y u = parsed-Keeps _ _ u (λ i. Triple-ignore _ (text-Outside i o _ _))

  pub mentions-Outside :
      (o : ℕ) (x : String) (y : Option String) (ms : List String)
      → Keeps P (notify_mentions o x y ms)
  unfolding notify_mentions
  mentions-Outside o x y [] = Keeps-pure []
  mentions-Outside o x y (m ∷ ms) = Keeps-bind _ _ (Triple-attempt _ (Keeps-parse_uuid m)) (λ u.
      Keeps-bind _ _ (mentioned-Outside o x y u)
        (λ _. Keeps-bind _ _ (mentions-Outside o x y ms) (λ rest. Keeps-pure _)))

  pub post_notify-Outside :
      (o u : ℕ) (req : PostRequest) (x : String) (ps : _) → Keeps P (post_notify o u req x ps)
  unfolding post_notify notify_update
  post_notify-Outside o u req x ps = search (keeps_rules, mentions-Outside, text-Outside) depth 16

  pub post_rest-Outside : (t o u : ℕ) (req : PostRequest) (i : ℕ) → Keeps P (post_rest t o u req i)
  unfolding post_rest get_task_details_for_notifications get_task_participants
  post_rest-Outside t o u req i =
      search (keeps_rules, insert_attachment-Outside, post_notify-Outside) depth 20

  pub comment_files-Outside :
      (req : PostRequest) (i c : ℕ)
      → Keeps P (for_each req.attachments (insert_attachment_with_transcription (Link.comment i) c))
  comment_files-Outside req i c = Keeps-for_each _ _ (insert_attachment-Outside (Link.comment i) c)

  Always-parsed :
      (body : ℕ → M (Unit {0})) (o : Option ℕ)
      → ((u : ℕ) → Always P (body u))
      → Always P (with_parsed body o)
  Always-parsed body none q = Always-Quiet (Quiet-pure tt)
  Always-parsed body (some u) q = q u

  Always-each :
      (xs : List String) (body : String → M (Unit {0}))
      → ((x : String) → Always P (body x))
      → Always P (for_each xs body)
  unfolding for_each
  Always-each [] body q = Always-Quiet (Quiet-pure tt)
  Always-each (x ∷ xs) body q = Always-bind _ _ (q x) (λ _. Always-each xs body q)

  create-Always : (u o : ℕ) (x y : String) → Always P (create_notification u o x y)
  unfolding create_notification
  create-Always u o x y = Always-exec _ (λ env t s h. out.told s _ h)

  mention-Always : (o : ℕ) (x y m : String) → Always P (notify_comment_mention o x y m)
  unfolding notify_comment_mention
  mention-Always o x y m =
      Always-bind _ _ (Always-Quiet (Quiet-attempt _ (Quiet-parse_uuid m)))
        (λ u. Always-parsed _ u (λ i. Always-ignore _ (create-Always i o _ _)))

  author-Always :
      (o c : ℕ) (ms : List String) (print : ℕ → String) (a : Option (Option ℕ))
      → Always P (notify_author o c ms print a)
  unfolding notify_author
  author-Always o c ms print none = Always-Quiet (Quiet-pure tt)
  author-Always o c ms print (some a) =
      Always-if _ _ _ (Always-ignore _ (create-Always _ o _ _)) (Always-Quiet (Quiet-pure tt))

  pub comment_sent-Outside : (t o e c : ℕ) (req : PostRequest) → Always P (comment_sent t o e c req)
  unfolding comment_sent get_task_details_for_notifications get_user_name_by_id
      get_task_update_author
  comment_sent-Outside t o e c req =
      search
        (
          Always-bind, Always-each, mention-Always, author-Always, Always-Quiet, Quiet-attempt,
          Quiet-select_one, Quiet-uuid_printer,
        )
        depth 16
