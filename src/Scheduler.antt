-- ===== src/Scheduler.antt =====
-- scheduler.py: `process_due_scheduled_events`, and `run_scheduler`, which calls it until it is
-- stopped. The rows of a batch are locked while it runs (`FOR UPDATE SKIP LOCKED`), so one session's
-- view of them is what the model has.
pub mod Events
pub mod Laws
mod Tests
use nudging_tool.Prelude.{
  ℕ, zero, suc, String, Bool, true, false, ◌&&◌, Option, none, some, List, [], ◌∷◌, map, ◌==◌,
  select, take, leb, if◌then◌else◌,
}
use nudging_tool.Json.{end}
use nudging_tool.Db.{ScheduledEvent, Db}
use nudging_tool.Session.{
  Error, system_exit, Exec, Session, Result, ok, err, pure, raise, read_loaded, rollbacks_so_far,
  query, modify, commit, for_each, ◌>>=◌, ◌>>◌,
}
use nudging_tool.Env.{Env, utc_now}
use nudging_tool.Engine.{DigitalTwinEvent, NudgeEvent, EngineResult, is_created}
use nudging_tool.Engine.Batch.{run_engine_batch}
use nudging_tool.Orchestrator.Run.{orchestrate}

abbrev pub is_due : ℕ → ScheduledEvent → Bool
is_due now e = (e.status == "pending") && leb e.trigger_at now

-- `ORDER BY trigger_at ASC`
abbrev pub insert_by_trigger : ScheduledEvent → List ScheduledEvent → List ScheduledEvent
insert_by_trigger e [] = e ∷ []
insert_by_trigger e (x ∷ xs) =
    let rest = insert_by_trigger e xs in
    if leb e.trigger_at x.trigger_at then e ∷ x ∷ xs else x ∷ rest

unfoldable pub sort_by_trigger : List ScheduledEvent → List ScheduledEvent
sort_by_trigger [] = []
sort_by_trigger (e ∷ es) = insert_by_trigger e (sort_by_trigger es)

-- The batch: the due rows, the earliest first, `batch_size` of them at most.
unfoldable pub due_events : ℕ → ℕ → Db → List ScheduledEvent
unfolding sort_by_trigger
due_events batch_size now db = take batch_size (sort_by_trigger (select (is_due now) db.scheduled))

abbrev pub update_event : String → (ScheduledEvent → ScheduledEvent) → Db → Db
update_event id f db = record db {
  scheduled = map (λ (x : ScheduledEvent). if x.id == id then f x else x) db.scheduled;
}

abbrev pub event_of : ScheduledEvent → DigitalTwinEvent
event_of e = record {
  event_type = e.event_type;
  user_id = some e.user_id;
  community_id = e.community_id;
  payload = end;
  facts = e.facts;
}

-- The nudges of the results that created one.
abbrev pub created_nudge : Bool → Option NudgeEvent → List NudgeEvent → List NudgeEvent
created_nudge true (some nudge) rest = nudge ∷ rest
created_nudge true none rest = rest
created_nudge false nudge rest = rest

unfoldable pub created_nudges : List EngineResult → List NudgeEvent
created_nudges [] = []
created_nudges (r ∷ rs) = created_nudge (is_created r.status) r.nudge (created_nudges rs)

-- Whether an exception is an `Exception`, which `SystemExit` is not.
abbrev pub is_exception : Error → Bool
is_exception (system_exit code) = false
is_exception _ = true

module _ (env : Env) (error_text : Error → String) where
  -- The body of the `try`. The event was loaded after `loaded_at` rollbacks.
  unfoldable pub dispatch_event : (loaded_at : ℕ) → ScheduledEvent → Exec Unit
  unfolding created_nudges
  dispatch_event loaded_at e = do
    read_loaded loaded_at
    results ← run_engine_batch env (event_of e) none
    for_each (λ nudge. orchestrate env nudge.nudge_id >>= λ _. pure tt) (created_nudges results)
    now ← utc_now env
    modify (
        update_event e.id
          (λ x. record x { status = "dispatched"; dispatched_at = some now; last_error = none }))

  abbrev pub fail_event : ScheduledEvent → Error → Exec Unit
  fail_event e x = modify (
      update_event e.id (λ row. record row { status = "failed"; last_error = some (error_text x) }))

  -- `except Exception as exc`, whose log line reads the id of the event.
  abbrev pub except_exception : (loaded_at : ℕ) → ScheduledEvent → Result (Unit {0}) → Exec Unit
  except_exception loaded_at e (ok _) = pure tt
  except_exception loaded_at e (err x) =
      if is_exception x then (read_loaded loaded_at >> fail_event e x) else raise x

  unfoldable pub process_event : (loaded_at : ℕ) → ScheduledEvent → Exec Unit
  unfolding dispatch_event
  process_event loaded_at e s =
      let (r, s') = dispatch_event loaded_at e s in except_exception loaded_at e r s'

  finish_batch : List ScheduledEvent → Exec Unit
  finish_batch [] = pure tt
  finish_batch (e ∷ es) = commit

  unfoldable pub process_due_scheduled_events : (batch_size : ℕ) → Exec Unit
  unfolding due_events process_event finish_batch
  process_due_scheduled_events batch_size = do
    now ← utc_now env
    events ← query (due_events batch_size now)
    loaded_at ← rollbacks_so_far
    for_each (process_event loaded_at) events
    finish_batch events
