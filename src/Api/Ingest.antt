-- ===== src/Api/Ingest.antt =====
-- api/routes/admin/ingest.py: `ingest_event`, from the request to the status of the response.
pub mod Laws
use nudging_tool.Prelude.{
  ℕ, String, ◌<>◌, Bool, true, false, not, ◌&&◌, ◌||◌, Option, none, some, List, [], ◌∷◌, map, any,
  all, is_nil, truthy_text, if◌then◌else◌,
}
use nudging_tool.Json.{Json, Dict, str, arr, obj, truthy, end, field, of_texts}
use nudging_tool.Session.{Exec, Error, http_error, pure, raise, ◌>>=◌, ◌>>◌}
use nudging_tool.Env.{Env}
use nudging_tool.Delivery.{DeliveryJob}
use nudging_tool.Engine.{
  EngineResultStatus, created, not_triggered, missing_facts, unknown_scenario, suppressed_dedup,
  is_created, DigitalTwinEvent, NudgeEvent, EngineResult,
}
use nudging_tool.Engine.Facts.{validate_facts_contract}
use nudging_tool.Engine.Batch.{run_engine_batch}
use nudging_tool.Orchestrator.Recipients.{email_recipients}
use nudging_tool.Orchestrator.Run.{orchestrate}
use nudging_tool.Scheduler.{created_nudges}

-- A response: its status code, the jobs of each nudge, and the results that created none.
pub record Response : Type 0 where
  pub status_code : ℕ
  pub created : List (NudgeEvent × List DeliveryJob)
  pub suppressed : List EngineResult

abbrev pub is_status : EngineResultStatus → EngineResultStatus → Bool
is_status not_triggered not_triggered = true
is_status missing_facts missing_facts = true
is_status unknown_scenario unknown_scenario = true
is_status suppressed_dedup suppressed_dedup = true
is_status created created = true
is_status _ _ = false

abbrev pub has_status : EngineResultStatus → List EngineResult → Bool
has_status status rs = any (λ (r : EngineResult). is_status status r.status) rs

-- `statuses == {status}`
abbrev pub only_status : EngineResultStatus → List EngineResult → Bool
only_status status rs = not (is_nil rs) && all (λ (r : EngineResult). is_status status r.status) rs

abbrev pub error_detail : String → Dict
error_detail text = field "error" (str text) end

-- The end of the handler, where no nudge was created. The list of the results, which the details
-- repeat, is left out of them.
unfoldable pub respond_without_nudge : List EngineResult → Exec Response
respond_without_nudge rs =
    if only_status not_triggered rs
    then pure (record { status_code = 204; created = []; suppressed = [] })
    else if only_status suppressed_dedup rs
    then raise (http_error 409 (error_detail "suppressed"))
    else if has_status missing_facts rs
    then raise (http_error 422 (error_detail "missing_required_facts"))
    else if has_status unknown_scenario rs
    then raise (http_error 400 (error_detail "unknown_scenario"))
    else raise (http_error 500 (error_detail "no_nudge_created"))

unfoldable pub not_created : List EngineResult → List EngineResult
not_created [] = []
not_created (r ∷ rs) = let rest = not_created rs in if is_created r.status then rest else r ∷ rest

module _ (env : Env) where
  -- `orchestrate` for each nudge, in order.
  unfoldable pub deliver : List NudgeEvent → Exec (List (NudgeEvent × List DeliveryJob))
  deliver [] = pure []
  deliver (nudge ∷ nudges) = do
    jobs ← orchestrate env nudge.nudge_id
    rest ← deliver nudges
    pure ((nudge, jobs) ∷ rest)

  abbrev pub any_jobs : List (NudgeEvent × List DeliveryJob) → Bool
  any_jobs deliveries = any (λ (d : NudgeEvent × List DeliveryJob). not (is_nil d.1)) deliveries

  unfoldable pub respond : List EngineResult → Exec Response
  unfolding respond_without_nudge deliver created_nudges
  respond rs =
      if has_status created rs
      then (do
        deliveries ← deliver (created_nudges rs)
        pure (record {
          status_code = if any_jobs deliveries then 200 else 202;
          created = deliveries;
          suppressed = not_created rs;
        }))
      else respond_without_nudge rs

  -- `_synthetic_user_id`; `digest` stands for sha256 of the sorted addresses.
  abbrev pub synthetic_user :
      (List String → String) → DigitalTwinEvent → List String → DigitalTwinEvent
  synthetic_user digest evt recipients = record evt {
    user_id = some ("email-ingest:" <> digest recipients);
    community_id = none;
  }

  -- The event with its target, or the refusal of an event that has none.
  unfoldable pub with_target : (List String → String) → DigitalTwinEvent → Exec DigitalTwinEvent
  with_target digest evt =
      if truthy_text evt.user_id
      then pure evt
      else elim (email_recipients env.lower_other evt.facts) [
        | [] ↦ raise (
            http_error 422 (
              field "error" (str "missing_target")
                (field "reason" (str "user_id_or_email_recipients_required") end)))
        | r ∷ rs ↦ pure (synthetic_user digest evt (r ∷ rs))
      ]

  unfoldable pub ingest_event : (digest : List String → String) → DigitalTwinEvent → Exec Response
  unfolding with_target respond validate_facts_contract
  ingest_event digest evt =
      if not (truthy (obj evt.facts))
      then raise (http_error 422 (field "detail" (str "Missing facts in DT event") end))
      else if not (validate_facts_contract evt.facts).ok
      then raise (
          http_error 422 (
            field "error" (str "invalid_facts_contract")
              (field "errors" (arr (of_texts (validate_facts_contract evt.facts).errors)) end)))
      else (do target ← with_target digest evt; rs ← run_engine_batch env target none; respond rs)
