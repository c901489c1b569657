-- ===== src/Api/ScheduledEvents.antt =====
-- api/routes/admin/scheduled_events.py: `create_scheduled_event`, which updates the row of an
-- external key that is known.
use nudging_tool.Prelude.{
  ℕ, String, not, Option, none, some, List, [], ◌∷◌, map, ◌==◌, select, if◌then◌else◌,
}
use nudging_tool.Json.{Dict, str, arr, obj, truthy, end, field, of_texts}
use nudging_tool.Db.{ScheduledEvent, Db}
use nudging_tool.Session.{
  Exec, http_error, pure, raise, lift, query, modify, commit, scalar_one_or_none, ◌>>=◌, ◌>>◌,
}
use nudging_tool.Env.{Env, uuid4}
use nudging_tool.Engine.Facts.{validate_facts_contract}
use nudging_tool.Engine.Resolve.{same_option}

pub record ScheduledEventCreateRequest : Type 0 where
  pub event_type : String
  pub user_id : String
  pub community_id : Option String
  pub external_key : Option String
  pub trigger_at : ℕ
  pub facts : Dict

abbrev pub rows_of_key : Option String → Db → List ScheduledEvent
rows_of_key none db = []
rows_of_key (some String.[]) db = []
rows_of_key (some (String.◌∷◌ c s)) db =
    select (λ (e : ScheduledEvent). same_option e.external_key (some (String.◌∷◌ c s))) db.scheduled

abbrev pub add_event : ScheduledEvent → Db → Db
add_event e db = record db { scheduled = e ∷ db.scheduled }

abbrev pub store_event : ScheduledEvent → Db → Db
store_event e db = record db {
  scheduled = map (λ (x : ScheduledEvent). if x.id == e.id then e else x) db.scheduled;
}

-- The assignments to a row that exists: it is pending again.
abbrev pub rescheduled : ScheduledEventCreateRequest → ScheduledEvent → ScheduledEvent
rescheduled body e = record e {
  event_type = body.event_type;
  user_id = body.user_id;
  community_id = body.community_id;
  trigger_at = body.trigger_at;
  facts = body.facts;
  status = "pending";
  last_error = none;
  dispatched_at = none;
}

module _ (env : Env) where
  unfoldable pub write_event :
      ScheduledEventCreateRequest → Option ScheduledEvent → Exec ScheduledEvent
  write_event body (some existing) = do
    modify (store_event (rescheduled body existing))
    commit
    pure (rescheduled body existing)
  write_event body none = do
    id ← uuid4 env
    let e : ScheduledEvent = record {
      id = id;
      event_type = body.event_type;
      user_id = body.user_id;
      community_id = body.community_id;
      external_key = body.external_key;
      trigger_at = body.trigger_at;
      facts = body.facts;
      status = "pending";
      last_error = none;
      dispatched_at = none;
    }
    modify (add_event e)
    commit
    pure e

  unfoldable pub create_scheduled_event : ScheduledEventCreateRequest → Exec ScheduledEvent
  unfolding write_event validate_facts_contract
  create_scheduled_event body =
      if not (truthy (obj body.facts))
      then raise (http_error 422 (field "detail" (str "Missing facts in scheduled event") end))
      else if not (validate_facts_contract body.facts).ok
      then raise (
          http_error 422 (
            field "error" (str "invalid_facts_contract")
              (field "errors" (arr (of_texts (validate_facts_contract body.facts).errors)) end)))
      else (do
        rows ← query (rows_of_key body.external_key)
        existing ← lift (scalar_one_or_none rows)
        write_event body existing)
