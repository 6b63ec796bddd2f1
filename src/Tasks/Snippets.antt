-- ===== src/Tasks/Snippets.antt =====
-- A post whose snippet cuts a character.
use abhiyan.Tasks.Edits.{AreMembers}
use abhiyan.Tasks.Posted.{parsed_transaction, started}
use abhiyan.Sql.Tasks.{get_task_details_for_notifications, add_task_update}
use abhiyan.Sql.Participants.{get_task_participants, ParticipantRow}
use abhiyan.Db.Committed.{
  committed_under, Ensures-Triple, Ensures-step, Under-Ensures, Under-bind, Under,
}
use abhiyan.Tasks.Posting.{insert_attachment-Outside, text-Outside, mentions-Outside, Outside}
use abhiyan.Sql.Updates.{create_notification_text}
use abhiyan.Prelude.{
  subst, ◌≢◌, refl, inr, inl, ℕ, String, Option, none, some, List, ◌∷◌, ◌≡◌, sym, ◌∙◌, ap,
}
use abhiyan.Schema.{Store}
use abhiyan.Db.{M, pure, lift, attempt, Env, Db, ok, ◌>>=◌, parse_uuid, transaction}
use abhiyan.Db.Triples.{
  Keeps-select, Keeps-select_one, Triple-attempt, Triple-returning, Keeps, Triple-ignore,
  Keeps-for_each, Keeps-uuid_printer, Keeps-pure, Keeps-bind, Triple,
}
use abhiyan.Db.Firm.{Firm-ignore, Triple-Firm}
use abhiyan.Db.Statements.{Firm-write_checked}
use abhiyan.Tasks.Post.{
  post_rest, notify_update, post_task_update, post_body, mentioned_if, PostRequest, snippet,
  notify_mentioned, notify_mentions, post_notify,
}

-- No table satisfies it: a transaction that ensures it does not commit.
abbrev Never : Store → Type 0
Never s = ⊥

Never-Outside : Outside Never
Never-Outside = record {
  told = λ s ns h. h;
  filed = λ s xs h. h;
  queued = λ s is h. h;
  transcoded = λ s is h. h;
}

mention_refused :
    (P : Store → Type 0) (o u : ℕ) (name : String)
    → Triple P (notify_mentioned o name none (some u)) Never
unfolding notify_mentioned create_notification_text
mention_refused P o u name =
    Triple-Firm _ (Firm-ignore _ (Firm-write_checked _ (λ env t s h a s' eq. absurd cc)))

-- Nothing is known of the tables.
abbrev Any : Store → Type 0
Any s = Unit

Any-Outside : Outside Any
Any-Outside = record {
  told = λ s ns h. h;
  filed = λ s xs h. h;
  queued = λ s is h. h;
  transcoded = λ s is h. h;
}

parsed_mention :
    (env : Env) (m : String) {u : ℕ}
    → env.parse_uuid m ≡ some u
    → Under env Any (attempt (parse_uuid m)) (λ found s. found ≡ some u)
unfolding attempt parse_uuid lift
parsed_mention env m e = record { at = λ db t h. rw e (t, inr refl) }

mentions_refused :
    (env : Env) (o : ℕ) (name m : String) (ms : List String) {u : ℕ}
    → env.parse_uuid m ≡ some u
    → Under env Any (notify_mentions o name none (m ∷ ms)) (λ _. Never)
unfolding notify_mentions notify_mentioned pure
mentions_refused env o name m ms {u} e = Under-bind _ _ (parsed_mention env m e) (λ found.
    Under-Ensures _ (
      Ensures-step {Q = Never} _ _ (refused_of found) (λ _. Ensures-Triple _ (
        Keeps-bind _ _ (mentions-Outside Never Never-Outside o name none ms)
          (λ rest. Keeps-pure (mentioned_if found m rest))))))
  where
    refused_of :
        (found : Option ℕ) → Triple (λ s. found ≡ some u) (notify_mentioned o name none found) Never
    refused_of none = record {
      at = λ env db t h. elim h [ inl dead ↦ (t, inl dead) | inr live ↦ absurd cc ];
    }
    refused_of (some v) = mention_refused _ o v name

-- Someone is mentioned, and the snippet is no text.
post_refused :
    (env : Env) (t o u : ℕ) (req : PostRequest) (m : String) (ms : List String) {v : ℕ}
    → snippet req.content ≡ none
    → req.mentioned_user_ids ≡ m ∷ ms
    → env.parse_uuid m ≡ some v
    → (name : String) (ps : List ParticipantRow)
    → Under env Any (post_notify o u req name ps) (λ _. Never)
unfolding post_notify notify_update
post_refused env t o u req m ms cut here parsed name ps =
    rw (cut, here)
      (Under-bind _ _ (mentions_refused env o _ m ms parsed) (λ mentioned. Under-Ensures _ (
        Ensures-Triple _ (
          Keeps-bind _ _ Keeps-uuid_printer (λ print.
            Keeps-for_each _ _
              (λ p. Triple-ignore _ (text-Outside Never Never-Outside p.id o _ _)))))))

body_refused :
    (env : Env) (t o u : ℕ) (req : PostRequest) (m : String) (ms : List String) {v : ℕ}
    → snippet req.content ≡ none
    → req.mentioned_user_ids ≡ m ∷ ms
    → env.parse_uuid m ≡ some v
    → Under env Any (post_body t o req u) (λ _. Never)
unfolding post_body post_rest add_task_update get_task_details_for_notifications
    get_task_participants
body_refused env t o u req m ms cut here parsed =
    Under-bind _ _ (step _ (Triple-returning _ (λ env i s h. tt))) (λ i.
      Under-bind _ _
        (step _ (
          Keeps-for_each _ _
            (λ a. Triple-ignore _ (insert_attachment-Outside Any Any-Outside _ u a))))
        (λ _. Under-bind _ _ (step _ (Triple-attempt _ (Keeps-select_one _))) (λ title.
          Under-bind _ _ (step _ (Triple-attempt _ (Keeps-select _)))
            (λ ps. post_refused env t o u req m ms cut here parsed _ _))))
  where
    step : {A : Type 0} (a : M A) → Keeps Any a → Under env Any a (λ _. Any)
    step a k = Under-Ensures a (Ensures-Triple a k)

-- A post whose content has more than 40 bytes of UTF-8 and a character across the bytes 37 and 38,
-- and that mentions someone, never succeeds: the snippet is no text that the server takes, and the
-- refused notification aborts the transaction of the post.
pub post_task_update_cut :
    (task user : String) (req : PostRequest) (caller : String) (env : Env) (db : Db) (m : String)
    (ms : List String)
    → snippet req.content ≡ none
    → req.mentioned_user_ids ≡ m ∷ ms
    → (post_task_update task user req caller env db).0 ≢ ok tt
unfolding post_task_update
post_task_update_cut task user req caller env db m ms cut here h =
    let (t, o, next, starts, kept, same) =
      started task caller req.mentioned_user_ids
        (λ t o. transaction (parse_uuid user >>= post_body t o req)) env db h in
    let (u, parsed, goes) =
      parsed_transaction user (post_body t o req) env next (ap (λ r. r.0) (sym same) ∙ h) in
    let (v, known, member) = (subst (λ ms. AreMembers ms o env db.store) here starts.3).0 in
    committed_under (λ _. Never) (post_body t o req u) env next
      (body_refused env t o u req m ms cut here known) tt (ap (λ r. r.0) (sym (same ∙ goes)) ∙ h)
