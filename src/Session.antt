-- ===== src/Session.antt =====
-- The session of SQLAlchemy, as db/session.py configures it, and the exceptions that the code
-- raises and catches. `working` is what the transaction sees and has written, also through the
-- attributes of loaded rows; `commit` makes it durable and `rollback` drops it. What was written
-- before an exception stays in `working`. That SQLAlchemy refuses statements after a commit that
-- failed, until a rollback, is not told apart. A rollback, also that of a commit that fails, expires
-- the rows that were loaded: reading an attribute of one then raises `MissingGreenlet`.
pub mod Bind
pub mod Commit
pub mod Fallible
pub mod Hoare
use nudging_tool.Prelude.{
  ℕ, ◌+◌, String, Bool, true, false, Option, none, some, List, [], ◌∷◌, map, has_duplicate, eqb,
  if◌then◌else◌,
}
use nudging_tool.Json.{Dict}
use nudging_tool.Db.{Rule, Db}

pub data Error : Type 0 where
  value_error : String → Error
  runtime_error : String → Error
  type_error : String → Error
  key_error : (key : String) → Error
  system_exit : (code : ℕ) → Error
  validation_error : String → Error
  template_error : String → Error
  evaluator_error : String → Error
  integrity_error : (constraint : String) → Error
  no_result_found multiple_results_found missing_greenlet : Error
  http_error : (status_code : ℕ) → (detail : Dict) → Error

pub data Result {ℓ} (A : Type ℓ) : Type ℓ where
  ok : A → Result A
  err : Error → Result A

-- `draws`, `ticks`, `calls` and `rollbacks` count the uuids drawn, the readings of the clock, the
-- calls to push and mail services and the rollbacks so far.
pub record Session : Type 0 where
  pub committed : Db
  pub working : Db
  pub draws : ℕ
  pub ticks : ℕ
  pub calls : ℕ
  pub rollbacks : ℕ

abbrev pub Exec : Type 0 → Type 0
Exec A = Session → Result A × Session

module _ {A : Type 0} where
  unfoldable pub pure : A → Exec A
  pure a s = (ok a, s)

  unfoldable pub raise : Error → Exec A
  raise e s = (err e, s)

  unfoldable pub lift : Result A → Exec A
  lift r s = (r, s)

  -- A query.
  unfoldable pub query : (Db → A) → Exec A
  query f s = (ok (f s.working), s)

  abbrev pub value_error_handler : (String → Exec A) → Result A → Exec A
  value_error_handler handler (err (value_error e)) = handler e
  value_error_handler handler r = lift r

  -- `try: body` / `except ValueError as e: handler`
  unfoldable pub except_value_error : Exec A → (String → Exec A) → Exec A
  except_value_error body handler s = let (r, s') = body s in value_error_handler handler r s'

  abbrev pub integrity_error_handler : (String → Exec A) → Result A → Exec A
  integrity_error_handler handler (err (integrity_error c)) = handler c
  integrity_error_handler handler r = lift r

  -- `try: body` / `except IntegrityError as e: handler`
  unfoldable pub except_integrity_error : Exec A → (String → Exec A) → Exec A
  except_integrity_error body handler s =
      let (r, s') = body s in integrity_error_handler handler r s'

module _ {A B : Type 0} where
  abbrev pub and_then : Result A → (A → Exec B) → Exec B
  and_then (ok a) f = f a
  and_then (err e) f = raise e

  infixl 5 ◌>>=◌ ◌>>◌
  -- Opening this opens the actions above too.
  unfoldable pub ◌>>=◌ : Exec A → (A → Exec B) → Exec B
  unfolding pure raise lift query except_value_error except_integrity_error
  m >>= f = λ s. let (r, s') = m s in and_then r f s'

  abbrev pub ◌>>◌ : Exec A → Exec B → Exec B
  m >> n = m >>= λ _. n

-- `for x in xs: body(x)`
unfoldable pub for_each : {A : Type 0} → (A → Exec Unit) → List A → Exec Unit
for_each body [] = pure tt
for_each body (x ∷ xs) = body x >> for_each body xs

-- `[await body(x) for x in xs]`
unfoldable pub traverse : {A B : Type 0} → (A → Exec B) → List A → Exec (List B)
traverse body [] = pure []
traverse body (x ∷ xs) = do y ← body x; ys ← traverse body xs; pure (y ∷ ys)

-- `result.scalar_one_or_none()`
abbrev pub scalar_one_or_none : {A : Type 0} → List A → Result (Option A)
scalar_one_or_none [] = ok none
scalar_one_or_none (x ∷ []) = ok (some x)
scalar_one_or_none (x ∷ y ∷ rest) = err multiple_results_found

-- `result.scalar_one()`
abbrev pub scalar_one : {A : Type 0} → List A → Result A
scalar_one [] = err no_result_found
scalar_one (x ∷ []) = ok x
scalar_one (x ∷ y ∷ rest) = err multiple_results_found

-- `result.scalars().first()`
abbrev pub first : {A : Type 0} → List A → Option A
first [] = none
first (x ∷ rest) = some x

-- A change of the rows of the transaction: `db.add`, or an assignment to a loaded row.
unfoldable pub modify : (Db → Db) → Exec Unit
modify f s = (ok tt, record s { working = f s.working })

abbrev pub dedup_keys : Db → List String
dedup_keys db = map (λ n. n.dedup_key) db.nudges

-- The first unique constraint that the rows break, of those that the engine's inserts can meet.
unfoldable pub violation : Db → Option String
violation db =
    if has_duplicate (map (λ n. n.id) db.nudges)
    then some "nudges_log_pkey"
    else if has_duplicate (dedup_keys db)
    then some "uq_nudges_dedup_key"
    else if has_duplicate (map (λ n. n.id) db.notifications)
    then some "notifications_pkey"
    else if has_duplicate (map (λ n. n.nudge_log_id) db.notifications)
    then some "uq_notification_nudge_log"
    else if has_duplicate (map (λ d. d.id) db.deliveries)
    then some "delivery_log_pkey"
    else none

abbrev pub commit_checked : Option String → Exec Unit
commit_checked none s = (ok tt, record s { committed = s.working })
commit_checked (some c) s = (err (integrity_error c), record s { rollbacks = s.rollbacks + 1 })

-- `await db.commit()`
unfoldable pub commit : Exec Unit
commit s = commit_checked (violation s.working) s

-- `await db.rollback()`
unfoldable pub rollback : Exec Unit
rollback s = (ok tt, record s { working = s.committed; rollbacks = s.rollbacks + 1 })

-- The rollbacks before rows are loaded.
abbrev pub rollbacks_so_far : Exec ℕ
rollbacks_so_far s = (ok s.rollbacks, s)

-- Reading an attribute of a row that was loaded after so many rollbacks.
unfoldable pub read_loaded : (loaded_at : ℕ) → Exec Unit
read_loaded loaded_at s = (if eqb s.rollbacks loaded_at then ok tt else err missing_greenlet, s)
