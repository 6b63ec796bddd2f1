-- ===== src/Tests/Posts.antt =====
-- The theorems on posts and comments, on the small organization of Tests/Data.antt.
use abhiyan.Sql.Participants.{get_task_participants}
use abhiyan.Sql.Orgs.{is_user_in_org}
use abhiyan.Tasks.Guards.{assert_user_in_org, assert_users_in_org, assert_task_in_org}
use abhiyan.Sql.Tasks.{get_task_details_for_notifications, get_task_org_id, add_task_update}
use abhiyan.Sql.Updates.{create_notification_text, add_update_comment}
use abhiyan.Text.{trim_space, full_name, take_bytes, utf8_width, byte_length}
use abhiyan.Prelude.{none, [], ◌∷◌, ◌≡◌, ◌≢◌, refl}
use abhiyan.Db.{
  for_each, uuid_printer, exec, write_checked, returning, select_one, select, transaction, ignore,
  attempt, statement, lift, raise, pure, parse_uuid, ◌>>=◌, ok,
}
use abhiyan.Tasks.Post.{
  notify_update, notify_mentioned, notify_mentions, post_notify, post_rest, post_body, PostRequest,
  post_task_update, snippet,
}
use abhiyan.Tasks.Comment.{comment_sent, comment_body, post_update_comment}
use abhiyan.Tasks.Posted.{
  PostedBy, CommentedBy, post_task_update-PostedBy, post_update_comment-CommentedBy,
}
use abhiyan.Tasks.Snippets.{post_task_update_cut}
use abhiyan.Tests.Data.{calm, server}

abbrev a_post : PostRequest
a_post = record {
  content = "Half of the data has arrived, and the rest is due";
  mentioned_user_ids = "worker" ∷ [];
  attachments = [];
}

-- The 37th and the 38th byte are one letter.
abbrev a_cut_post : PostRequest
a_cut_post = record {
  content = "aaaaaaaaaaaaaaaaaaaaaaaaaaaaaaaaaaaaé is ready to be read";
  mentioned_user_ids = "worker" ∷ [];
  attachments = [];
}

posts : (post_task_update "task" "admin" a_post "org" calm server).0 ≡ ok tt
unfolding post_task_update post_body post_rest post_notify notify_mentions notify_mentioned
    notify_update create_notification_text snippet byte_length utf8_width take_bytes add_task_update
    ◌>>=◌ parse_uuid pure raise lift statement attempt ignore transaction select select_one
    returning write_checked exec uuid_printer for_each assert_task_in_org assert_users_in_org
    assert_user_in_org is_user_in_org get_task_org_id get_task_details_for_notifications
    get_task_participants full_name trim_space
posts = refl

post_task_update-PostedBy_example :
    PostedBy "task" "admin" a_post "org" calm server.store
      (post_task_update "task" "admin" a_post "org" calm server).1.store
post_task_update-PostedBy_example =
    post_task_update-PostedBy "task" "admin" a_post "org" calm server posts

comments : (post_update_comment "task" "task" "admin" a_post "org" calm server).0 ≡ ok tt
unfolding post_update_comment comment_body comment_sent add_update_comment ◌>>=◌ parse_uuid pure
    raise lift statement attempt ignore transaction select select_one returning write_checked exec
    uuid_printer for_each assert_task_in_org assert_users_in_org assert_user_in_org is_user_in_org
    get_task_org_id get_task_details_for_notifications get_task_participants full_name trim_space
comments = refl

post_update_comment-CommentedBy_example :
    CommentedBy "task" "task" "admin" a_post "org" calm server.store
      (post_update_comment "task" "task" "admin" a_post "org" calm server).1.store
post_update_comment-CommentedBy_example =
    post_update_comment-CommentedBy "task" "task" "admin" a_post "org" calm server comments

is_cut : snippet a_cut_post.content ≡ none
unfolding snippet byte_length utf8_width take_bytes
is_cut = refl

post_task_update_cut_example :
    (post_task_update "task" "admin" a_cut_post "org" calm server).0 ≢ ok tt
post_task_update_cut_example =
    post_task_update_cut "task" "admin" a_cut_post "org" calm server "worker" [] is_cut refl
