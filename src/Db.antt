-- ===== src/Db.antt =====
-- Statements and transactions, as the services run them through database/sql on PostgreSQL. An
-- action is given the environment and the database, and returns a result and the database after
-- it. A statement that the server refuses, for any reason, is a fault: inside a transaction it
-- aborts the transaction, whose later statements are refused too and whose COMMIT rolls back.
pub mod Rules
pub mod Sure
pub mod Smooth
pub mod Triples
pub mod Committed
pub mod Always
pub mod Firm
pub mod Statements
pub mod Yields
use abhiyan.Prelude.{
  ℕ, suc, String, Bool, true, false, ◌||◌, Option, none, some, List, [], ◌∷◌, ◌++◌, if◌then◌else◌,
}
use abhiyan.Schema.{Store}

-- What the program calls and does not implement. `fault` says which of the statements sent to the
-- server are refused (a lost connection, a violated constraint, a failed COMMIT), by their number;
-- `gen_uuid` and `clock` are the uuid and the time that the server or the host hands out then;
-- `parse_uuid` is uuid.Parse, and `uuid_string` its printer.
pub record Env : Type 0 where
  pub fault : ℕ → Bool
  pub gen_uuid : ℕ → ℕ
  pub clock : ℕ → ℕ
  pub parse_uuid : String → Option ℕ
  pub uuid_string : ℕ → String

-- A job handed to the Onion queue, or files handed to S3 for deletion.
pub data Job : Type 0 where
  send_task_status_whatsapp : String → String → String → Job
  delete_objects : List String → Job
  compare_faces : String → String → String → Job
  send_invite_email : String → String → String → Job
  send_reminder_whatsapp : String → String → Option ℕ → Job
  send_reminder_email : String → String → Option ℕ → Job

pub record Db : Type 0 where
  pub store : Store
  pub in_tx : Bool
  pub aborted : Bool
  pub tick : ℕ
  pub jobs : List Job

pub data Error : Type 0 where
  invalid_uuid no_rows db_error commit_failed : Error
  wrong_org not_in_org not_assignee bad_range : Error
  not_in_team_org not_manager not_system_admin last_admin invalid_status : Error
  bad_date range_too_long no_face : Error

pub data Result {ℓ} (A : Type ℓ) : Type ℓ where
  ok : A → Result A
  err : Error → Result A

abbrev pub M {ℓ} : Type ℓ → Type ℓ
M A = Env → Db → Result A × Db

module _ {ℓ} {A : Type ℓ} where
  unfoldable pub pure : A → M A
  pure a env db = (ok a, db)

  unfoldable pub raise : Error → M A
  raise e env db = (err e, db)

  unfoldable pub lift : Option A → Error → M A
  lift (some a) e env db = (ok a, db)
  lift none e env db = (err e, db)

module _ {ℓ κ} {A : Type ℓ} {B : Type κ} where
  abbrev pub continue : Result A → (A → M B) → Env → Db → Result B × Db
  continue (ok a) k env db = k a env db
  continue (err e) k env db = (err e, db)

  infixl 10 ◌>>=◌
  unfoldable pub ◌>>=◌ : M A → (A → M B) → M B
  ◌>>=◌ m k env db = let (r, db') = m env db in continue r k env db'

infixl 10 ◌>>◌
abbrev pub ◌>>◌ {ℓ} : {B : Type ℓ} → M (Unit {0}) → M B → M B
m >> k = m >>= λ _. k

-- What a statement does to the tables: `refused` is a value that no column type admits.
pub data Outcome {ℓ} (A : Type ℓ) : Type ℓ where
  done : A → Store → Outcome A
  missing : Outcome A
  refused : Outcome A

module _ {ℓ} {A : Type ℓ} where
  -- sql.ErrNoRows is found by the client, so it aborts no transaction.
  abbrev pub settle : Outcome A → Db → Result A × Db
  settle (done a s) db = (ok a, record db { store = s })
  settle missing db = (err no_rows, db)
  settle refused db = (err db_error, record db { aborted = db.in_tx })

  unfoldable pub statement : (Env → ℕ → Store → Outcome A) → M A
  statement f env db =
      let next = record db { tick = suc db.tick } in
      if db.aborted || env.fault db.tick
      then (err db_error, record next { aborted = db.in_tx })
      else settle (f env db.tick db.store) next

  abbrev pub forget : Result A → Result (Option A)
  forget (ok a) = ok (some a)
  forget (err e) = ok none

  -- `x, _ := q` and `_ = q`: the error is dropped.
  unfoldable pub attempt : M A → M (Option A)
  attempt m env db = let (r, db') = m env db in (forget r, db')

  -- `x, err := q`, where the code goes on by the error
  unfoldable pub outcome : M A → M (Result A)
  outcome m env db = let (r, db') = m env db in (ok r, db')

  -- `_ = q`, or a call whose results are not bound
  unfoldable pub ignore : M A → M (Unit {0})
  ignore m env db = let (r, db') = m env db in (ok tt, db')

  -- `return tx.Commit()`, or the deferred Rollback
  abbrev pub finish : Store → Result A → Env → Db → Result A × Db
  finish before (err e) env db =
      (err e, record db { store = before; in_tx = false; aborted = false })
  finish before (ok a) env db =
      let next = record db { tick = suc db.tick; in_tx = false; aborted = false } in
      if db.aborted || env.fault db.tick
      then (err commit_failed, record next { store = before })
      else (ok a, next)

  -- BeginTx; the body; Commit. A body that returns an error is rolled back.
  unfoldable pub transaction : M A → M A
  transaction body env db =
      let begun = record db { tick = suc db.tick; in_tx = true; aborted = false } in
      let (r, db') = body env begun in
      let closed = finish db.store r env db' in
      if env.fault db.tick then (err db_error, record db { tick = suc db.tick }) else closed

-- The zero value of a result whose error is dropped
abbrev pub value_or {ℓ} : {A : Type ℓ} → A → Option A → A
value_or d none = d
value_or d (some a) = a

-- The kinds of query: `:exec` and `:one`/`:many` reads and inserts.
module _ {ℓ} {A : Type ℓ} where
  unfoldable pub select : (Env → ℕ → Store → A) → M A
  unfolding statement
  select f = statement (λ env t s. done (f env t s) s)

  abbrev pub found : Store → Option A → Outcome A
  found s none = missing
  found s (some a) = done a s

  unfoldable pub select_one : (Store → Option A) → M A
  unfolding statement
  select_one f = statement (λ env t s. found s (f s))

  -- INSERT … RETURNING
  unfoldable pub returning : (Env → ℕ → Store → A × Store) → M A
  unfolding statement
  returning f = statement (λ env t s. let (a, s') = f env t s in done a s')

  -- A statement whose values a column type, a CHECK or a unique index may refuse.
  abbrev pub checked : Option (A × Store) → Outcome A
  checked none = refused
  checked (some (a, s)) = done a s

  unfoldable pub write_checked : (Env → ℕ → Store → Option (A × Store)) → M A
  unfolding statement
  write_checked f = statement (λ env t s. checked (f env t s))

unfoldable pub exec : (Env → ℕ → Store → Store) → M (Unit {0})
unfolding statement
exec f = statement (λ env t s. done tt (f env t s))

unfoldable pub enqueue : Job → M (Unit {0})
enqueue j env db = (ok tt, record db { jobs = db.jobs ++ j ∷ [] })

-- The server's clock, as NOW() and time.Now() read it.
unfoldable pub now : M ℕ
now env db = (ok (env.clock db.tick), db)

-- How uuid.UUID prints itself
unfoldable pub uuid_printer : M (ℕ → String)
uuid_printer env db = (ok env.uuid_string, db)

-- util.ParseUUID
unfoldable pub parse_uuid : String → M ℕ
unfolding lift
parse_uuid s env db = lift (env.parse_uuid s) invalid_uuid env db

-- A loop over a slice that stops at the first error.
module _ {ℓ} {A : Type ℓ} where
  unfoldable pub for_each : List A → (A → M (Unit {0})) → M (Unit {0})
  unfolding pure ◌>>=◌
  for_each [] body = pure tt
  for_each (x ∷ xs) body = body x >>= λ _. for_each xs body
