-- ===== src/Engine/Batch.antt =====
-- `run_engine_batch`: an event through its contract, its time scope and its rules.
pub mod Counts
use nudging_tool.Prelude.{String, Bool, Option, none, some, List, [], ◌∷◌, if◌then◌else◌}
use nudging_tool.Json.{Dict, str, arr, end, field, or_else, text_of, of_texts, get}
use nudging_tool.Db.{Db}
use nudging_tool.Session.{Exec, pure, query, traverse, ◌>>=◌, ◌>>◌}
use nudging_tool.Env.{Env}
use nudging_tool.Engine.{
  missing_facts, unknown_scenario, DigitalTwinEvent, user_text, EngineResult, refusal,
  EngineResultStatus,
}
use nudging_tool.Engine.TimeScope.{TimeScope, infer_time_scope, normalize_time_fields}
use nudging_tool.Engine.Facts.{facts_from_event, check_facts_contract}
use nudging_tool.Engine.Resolve.{
  resolve_lang, resolve_rule_ids_from_db, resolve_rule_ids_from_scenario,
  filter_rule_ids_by_definition,
}
use nudging_tool.Engine.Log.{Subject, log_status}
use nudging_tool.Engine.Run.{text_field, reason_details, run_single_rule}

abbrev pub non_empty_or : {A : Type 0} → List A → List A → List A
non_empty_or [] ys = ys
non_empty_or (x ∷ xs) ys = x ∷ xs

module _ (env : Env) (evt : DigitalTwinEvent) where
  -- The row of the log when no rule is known.
  abbrev pub no_rule : String → String → Dict → Subject
  no_rule scope scenario facts = record {
    rule_id = "__no_rule__";
    user_id = user_text evt;
    community_id = evt.community_id;
    scope = scope;
    scenario = scenario;
    facts_version = text_field env.repr "facts_version" facts;
    facts = facts;
  }

  unfoldable pub refuse_batch :
      EngineResultStatus → Subject → String → Option Dict → Option Dict → Exec (List EngineResult)
  refuse_batch status x reason logged details = do
    log_status env status x logged
    pure (refusal status reason details ∷ [])

  -- The rules of a scenario, before their frequency is looked at.
  unfoldable pub candidate_rules : Db → String → List String
  candidate_rules db scenario =
      non_empty_or (resolve_rule_ids_from_db db scenario)
        (resolve_rule_ids_from_scenario env scenario)

  unfoldable pub run_rules :
      Dict → String → TimeScope → String → Dict → List String → Exec (List EngineResult)
  unfolding refuse_batch
  run_rules raw scenario ts lang facts [] =
      refuse_batch unknown_scenario (no_rule ts.scope scenario raw) "no_rule_for_inferred_frequency"
        (some (
          field "reason" (str "no_rule_for_inferred_frequency")
            (field "frequency" (str ts.frequency) end)))
        none
  run_rules raw scenario ts lang facts (rid ∷ rids) =
      traverse (λ id. run_single_rule env evt scenario facts id lang) (rid ∷ rids)

  unfoldable pub run_candidates :
      Dict → String → TimeScope → String → List String → Exec (List EngineResult)
  unfolding refuse_batch run_rules
  run_candidates raw scenario ts lang [] =
      refuse_batch unknown_scenario (no_rule ts.scope scenario raw) "scenario_not_mapped"
        (reason_details "scenario_not_mapped") (some (field "scenario" (str scenario) end))
  run_candidates raw scenario ts lang (rid ∷ rids) = do
    chosen ← query (λ db. filter_rule_ids_by_definition env db (rid ∷ rids) ts.frequency)
    run_rules raw scenario ts lang (normalize_time_fields raw ts) chosen

  unfoldable pub run_scoped : Dict → String → String → Option TimeScope → Exec (List EngineResult)
  unfolding refuse_batch run_candidates candidate_rules
  run_scoped raw scenario lang none =
      refuse_batch missing_facts (no_rule "__no_scope__" scenario raw)
        "missing_or_invalid_time_scope" (reason_details "missing_or_invalid_time_scope") none
  run_scoped raw scenario lang (some ts) = do
    rids ← query (λ db. candidate_rules db scenario)
    run_candidates raw scenario ts lang rids

  unfoldable pub run_checked : Dict → String → Bool × List String → Exec (List EngineResult)
  unfolding refuse_batch run_scoped
  run_checked raw lang (valid, errors) =
      if valid
      then run_scoped raw (text_of env.repr (get "scenario" raw)) lang (infer_time_scope raw)
      else refuse_batch missing_facts
          (no_rule "__no_scope__" (text_of env.repr (or_else (get "scenario" raw) (str "unknown")))
            raw)
          "invalid_facts_contract" (some (field "errors" (arr (of_texts errors)) end))
          (some (field "errors" (arr (of_texts errors)) end))

  unfoldable pub chosen_lang : Option String → Exec String
  chosen_lang none = resolve_lang env (user_text evt) evt.community_id (facts_from_event evt)
  chosen_lang (some String.[]) =
      resolve_lang env (user_text evt) evt.community_id (facts_from_event evt)
  chosen_lang (some (String.◌∷◌ c s)) = pure (String.◌∷◌ c s)

  unfoldable pub run_engine_batch : (lang : Option String) → Exec (List EngineResult)
  unfolding run_checked chosen_lang
  run_engine_batch lang = do
    chosen ← chosen_lang lang
    let raw = facts_from_event evt
    run_checked raw chosen (check_facts_contract raw)
