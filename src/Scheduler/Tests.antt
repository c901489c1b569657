-- ===== src/Scheduler/Tests.antt =====
-- A batch of the scheduler.
use nudging_tool.Prelude.{◌≡◌, refl, ◌≤◌, none, [], ◌∷◌, length, All, String, map, ℕ}
use nudging_tool.Json.{end}
use nudging_tool.Db.{ScheduledEvent, Db}
use nudging_tool.Session.{err, missing_greenlet, read_loaded, raise, ◌>>=◌}
use nudging_tool.Scheduler.{process_event, dispatch_event, due_events, sort_by_trigger}
use nudging_tool.Scheduler.Laws.{Due, Sorted, due_events-Sorted}
use nudging_tool.Samples.{env, db, start}

abbrev at : String → ℕ → ScheduledEvent
at id trigger_at = record {
  id = id;
  event_type = "dt";
  user_id = "u1";
  community_id = none;
  external_key = none;
  trigger_at = trigger_at;
  facts = end;
  status = "pending";
  last_error = none;
  dispatched_at = none;
}

abbrev with_events : Db
with_events = record db { scheduled = at "c" 30 ∷ at "a" 10 ∷ at "d" 40 ∷ at "b" 20 ∷ [] }

due_run : map (λ e. e.id) (due_events 2 30 with_events) ≡ "a" ∷ "b" ∷ []
unfolding due_events sort_by_trigger
due_run = refl

due_events-Sorted_example :
    (length (due_events 2 30 with_events) ≤ 2)
    × All (Due 30) (due_events 2 30 with_events)
    × Sorted (due_events 2 30 with_events)
due_events-Sorted_example = due_events-Sorted 2 30 with_events

-- An event that was loaded before a rollback.
expired :
    (process_event env
      (λ _. "error")
      0
      (at "a" 10)
      (record (start with_events) { rollbacks = 1 })).0
    ≡ err missing_greenlet
unfolding process_event dispatch_event read_loaded raise ◌>>=◌
expired = refl
