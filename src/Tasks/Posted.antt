-- ===== src/Tasks/Posted.antt =====
-- What posting an update and commenting on one have checked when they succeed, and what they leave.
use abhiyan.Tasks.Comment.{comment_sent, comment_body, post_update_comment}
use abhiyan.Tasks.Posting.{comment_sent-Outside, comment_files-Outside, Outside, post_rest-Outside}
use abhiyan.Db.Triples.{Triple-returning}
use abhiyan.Db.Committed.{
  Ensures-pure, Ensures-Triple, Ensures-step, transaction_committed, Ensures,
}
use abhiyan.Tasks.Post.{PostRequest, post_body, post_task_update}
use abhiyan.Prelude.{
  ℕ, String, some, List, [], ◌∷◌, ◌++◌, ◌≡◌, refl, sym, subst, ◌∙◌, ap, inl, inr, Option-cases,
  arith,
}
use mathlib.Core.Path.{subst₂}
use abhiyan.Schema.{Store}
use abhiyan.Db.{Env, Db, M, ok, ◌>>=◌, parse_uuid, lift, transaction, ignore}
use abhiyan.Db.Rules.{bind-ok}
use abhiyan.Tasks.Guards.{assert_users_in_org}
use abhiyan.Tasks.Atomicity.{Quiet-assert_users}
use abhiyan.Tasks.Edits.{AreMembers, assert_users-ok}
use abhiyan.Tasks.Opening.{opening, opened}
use abhiyan.Sql.Tasks.{org_of_task, add_task_update}
use abhiyan.Sql.Updates.{add_update_comment}

-- A transaction that begins with the parsing of an id
module _ {A : Type 0} (text : String) (k : ℕ → M A) (env : Env) (db : Db) where
  pub parsed_transaction :
      {a : A}
      → (transaction (parse_uuid text >>= k) env db).0 ≡ ok a
      → (u : ℕ) × (env.parse_uuid text ≡ some u)
        × (transaction (parse_uuid text >>= k) env db ≡ transaction (k u) env db)
  unfolding transaction ◌>>=◌ parse_uuid lift
  parsed_transaction h = elim (Option-cases (env.parse_uuid text)) [
    | inl bad ↦ ground arith
    | inr found ↦ let (u, good) = found in (u, good, rw good refl)
  ]

-- Where an operation starts: the ids are good, the task is one of the caller's organization, and
-- those whom the request mentions are active members of it.
abbrev pub Starts : String → String → List String → ℕ → ℕ → Env → Store → Type 0
Starts task caller mentions t o env s =
    (env.parse_uuid task ≡ some t)
    × (env.parse_uuid caller ≡ some o)
    × (org_of_task t s ≡ some o)
    × AreMembers mentions o env s

abbrev pub mentioning : List String → (ℕ → ℕ → M (Unit {0})) → ℕ → ℕ → M (Unit {0})
mentioning mentions k t o = assert_users_in_org mentions o >>= λ _. k t o

pub started :
    (task caller : String) (mentions : List String) (k : ℕ → ℕ → M (Unit {0})) (env : Env) (db : Db)
    {x : Unit {0}}
    → (opening task caller (mentioning mentions k) env db).0 ≡ ok x
    → (t : ℕ) × (o : ℕ) × (next : Db) × Starts task caller mentions t o env db.store
      × (next.store ≡ db.store)
      × (opening task caller (mentioning mentions k) env db ≡ k t o env next)
started task caller mentions k env db h =
    let p = opened task caller (mentioning mentions k) env db h in
    let t = p.task_id in
    let o = p.org_id in
    let same = p.goes_on in
    let kept = p.unchanged in
    let (_, passed, goes) =
      bind-ok (assert_users_in_org mentions o) _ env p.next (ap (λ r. r.0) (sym same) ∙ h) in
    (
      t,
      o,
      (assert_users_in_org mentions o env p.next).1,
      (
        p.task_parsed,
        p.org_parsed,
        p.in_org,
        subst (AreMembers mentions o env) kept (assert_users-ok mentions o env p.next passed),
      ),
      (Quiet-assert_users mentions o).at env p.next ∙ kept,
      same ∙ goes,
    )

-- The tables that neither posts nor comments touch
abbrev pub SameWork : Store → Store → Type 0
SameWork s0 s =
    (s.tasks ≡ s0.tasks) × (s.reminders ≡ s0.reminders) × (s.employee_scores ≡ s0.employee_scores)

same_work : {s s0 : Store} → s ≡ s0 → SameWork s0 s
same_work h = (ap (λ z. z.tasks) h, ap (λ z. z.reminders) h, ap (λ z. z.employee_scores) h)

added : {A : Type 0} {xs ys : List A} (row : A) → xs ≡ ys → xs ++ row ∷ [] ≡ ys ++ row ∷ []
added row h = ap (λ z. z ++ row ∷ []) h

abbrev pub AfterPost : PostRequest → ℕ → ℕ → Store → Store → Type 0
AfterPost req t u s0 s =
    (id : ℕ) × (s.task_updates
      ≡ s0.task_updates
        ++ record { id = id; task_id = t; user_id = some u; content = req.content } ∷ [])
    × (s.task_update_comments ≡ s0.task_update_comments)
    × SameWork s0 s

AfterPost-Outside : (req : PostRequest) (t u : ℕ) (s0 : Store) → Outside (AfterPost req t u s0)
AfterPost-Outside req t u s0 = record {
  told = λ s ns h. h;
  filed = λ s xs h. h;
  queued = λ s is h. h;
  transcoded = λ s is h. h;
}

posted :
    (req : PostRequest) (t o u : ℕ) (s0 : Store)
    → Ensures (λ s. s ≡ s0) (post_body t o req u) (λ _. AfterPost req t u s0)
unfolding post_body add_task_update
posted req t o u s0 =
    Ensures-step {Q = AfterPost req t u s0} _ _
      (Triple-returning _ (λ env i s h. (
        env.gen_uuid i,
        added _ (ap (λ z. z.task_updates) h),
        ap (λ z. z.task_update_comments) h,
        same_work h,
      )))
      (λ i. Ensures-Triple _ (post_rest-Outside _ (AfterPost-Outside req t u s0) t o u req i))

abbrev pub PostedBy : String → String → PostRequest → String → Env → Store → Store → Type 0
PostedBy task user req caller env before after =
    (t : ℕ) × (o : ℕ) × (u : ℕ) × Starts task caller req.mentioned_user_ids t o env before
    × (env.parse_uuid user ≡ some u)
    × AfterPost req t u before after

-- A post that succeeds names a task of the caller's organization and mentions only active members
-- of it. It adds one entry to the task's timeline, by the user and with the request's content, and
-- changes no comment, task, reminder or score.
pub post_task_update-PostedBy :
    (task user : String) (req : PostRequest) (caller : String) (env : Env) (db : Db) {x : Unit {0}}
    → (post_task_update task user req caller env db).0 ≡ ok x
    → PostedBy task user req caller env db.store
        (post_task_update task user req caller env db).1.store
unfolding post_task_update
post_task_update-PostedBy task user req caller env db h =
    let (t, o, next, starts, kept, same) =
      started task caller req.mentioned_user_ids
        (λ t o. transaction (parse_uuid user >>= post_body t o req)) env db h in
    let (u, parsed, goes) =
      parsed_transaction user (post_body t o req) env next (ap (λ r. r.0) (sym same) ∙ h) in
    let done = ap (λ r. r.0) (sym (same ∙ goes)) ∙ h in
    let held =
      transaction_committed (λ _. AfterPost req t u next.store) (post_body t o req u) env next
        (posted req t o u next.store) refl done in
    (
      t,
      o,
      u,
      starts,
      parsed,
      subst₂ (AfterPost req t u) kept (ap (λ r. r.1.store) (sym (same ∙ goes))) held,
    )

abbrev pub AfterComment : PostRequest → ℕ → ℕ → Store → Store → Type 0
AfterComment req e c s0 s =
    (id : ℕ) × (s.task_update_comments
      ≡ s0.task_update_comments
        ++ record { id = id; task_update_id = e; user_id = some c; content = req.content } ∷ [])
    × (s.task_updates ≡ s0.task_updates)
    × SameWork s0 s

AfterComment-Outside :
    (req : PostRequest) (e c : ℕ) (s0 : Store) → Outside (AfterComment req e c s0)
AfterComment-Outside req e c s0 = record {
  told = λ s ns h. h;
  filed = λ s xs h. h;
  queued = λ s is h. h;
  transcoded = λ s is h. h;
}

commented :
    (req : PostRequest) (e c : ℕ) (s0 : Store)
    → Ensures
        (λ s. s ≡ s0)
        (comment_body req e c)
        (λ ids s. (ids ≡ (e, c)) × AfterComment req e c s0 s)
unfolding comment_body add_update_comment
commented req e c s0 =
    Ensures-step {Q = AfterComment req e c s0} _ _
      (Triple-returning _ (λ env i s h. (
        env.gen_uuid i,
        added _ (ap (λ z. z.task_update_comments) h),
        ap (λ z. z.task_updates) h,
        same_work h,
      )))
      (λ i.
        Ensures-step _ _ (comment_files-Outside _ (AfterComment-Outside req e c s0) req i c)
          (λ _. Ensures-pure (e, c) (λ s h. (refl, h))))

abbrev pub CommentedBy :
    String → String → String → PostRequest → String → Env → Store → Store → Type 0
CommentedBy task entry user req caller env before after =
    (t : ℕ) × (o : ℕ) × (e : ℕ) × (c : ℕ) × Starts task caller req.mentioned_user_ids t o env before
    × (env.parse_uuid entry ≡ some e)
    × (env.parse_uuid user ≡ some c)
    × AfterComment req e c before after

abbrev comment_tx : String → String → PostRequest → M (ℕ × ℕ)
comment_tx entry user req =
    transaction (parse_uuid entry >>= λ e. parse_uuid user >>= comment_body req e)

-- The transaction of a comment that committed
comment_committed :
    (entry user : String) (req : PostRequest) (env : Env) (db : Db) {ids : ℕ × ℕ}
    → (comment_tx entry user req env db).0 ≡ ok ids
    → (env.parse_uuid entry ≡ some ids.0)
      × (env.parse_uuid user ≡ some ids.1)
      × AfterComment req ids.0 ids.1 db.store (comment_tx entry user req env db).1.store
comment_committed entry user req env db {ids} h =
    let (e, pe, se) =
      parsed_transaction entry (λ e. parse_uuid user >>= comment_body req e) env db h in
    let h1 = ap (λ r. r.0) (sym se) ∙ h in
    let (c, pc, sc) = parsed_transaction user (comment_body req e) env db h1 in
    let h2 = ap (λ r. r.0) (sym sc) ∙ h1 in
    let (same, held) =
      transaction_committed (λ ids s. (ids ≡ (e, c)) × AfterComment req e c db.store s)
        (comment_body req e c) env db (commented req e c db.store) refl h2 in
    let left = subst (AfterComment req e c db.store) (ap (λ r. r.1.store) (sym (se ∙ sc))) held in
    subst
      (λ z.
        (env.parse_uuid entry ≡ some z.0)
        × (env.parse_uuid user ≡ some z.1)
        × AfterComment req z.0 z.1 db.store (comment_tx entry user req env db).1.store)
      (sym same) (pe, pc, left)

-- A comment that succeeds names a task of the caller's organization and mentions only active
-- members of it. It adds one comment, by the user and with the request's content, on the update
-- that it names, and changes no update, task, reminder or score, whatever becomes of the
-- notifications that follow its COMMIT.
pub post_update_comment-CommentedBy :
    (task entry user : String) (req : PostRequest) (caller : String) (env : Env) (db : Db)
    {x : Unit {0}}
    → (post_update_comment task entry user req caller env db).0 ≡ ok x
    → CommentedBy task entry user req caller env db.store
        (post_update_comment task entry user req caller env db).1.store
unfolding post_update_comment ignore
post_update_comment-CommentedBy task entry user req caller env db h =
    let (t, o, next, starts, kept, same) =
      started task caller req.mentioned_user_ids
        (λ t o. comment_tx entry user req >>= λ ids. ignore (comment_sent t o ids.0 ids.1 req)) env
        db h in
    let (ids, done, goes) =
      bind-ok (comment_tx entry user req) (λ ids. ignore (comment_sent t o ids.0 ids.1 req)) env
        next (ap (λ r. r.0) (sym same) ∙ h) in
    let (pe, pc, held) = comment_committed entry user req env next done in
    let sends =
      comment_sent-Outside _ (AfterComment-Outside req ids.0 ids.1 next.store) t o ids.0 ids.1
        req in
    let sent = sends.at env (comment_tx entry user req env next).1 held in
    (
      t,
      o,
      ids.0,
      ids.1,
      starts,
      pe,
      pc,
      subst₂ (AfterComment req ids.0 ids.1) kept (ap (λ r. r.1.store) (sym (same ∙ goes))) sent,
    )
