-- ===== src/Engine/Tests.antt =====
-- Runs of the engine on the sample world.
use nudging_tool.Prelude.{true, ◌≡◌, refl, none, some, List, [], ◌∷◌, map, String}
use nudging_tool.Text.{strip, lower, is_digit}
use nudging_tool.Json.{update, get, put, has}
use nudging_tool.Json.Merge.{deep_merge}
use nudging_tool.Db.{Db}
use nudging_tool.Session.{Result, ok, err, commit, violation, ◌>>=◌, modify, rollback, traverse}
use nudging_tool.Env.{uuid4, utc_now}
use nudging_tool.Engine.{
  EngineResultStatus, created, suppressed_dedup, not_triggered, unknown_scenario, EngineResult,
  DigitalTwinEvent,
}
use nudging_tool.Engine.TimeScope.{matches, scope_of_text, infer_time_scope, normalize_time_fields}
use nudging_tool.Engine.Facts.{check_facts_contract, facts_from_event, validate_required_facts}
use nudging_tool.Engine.Resolve.{
  resolve_lang, resolve_rule_ids_from_db, resolve_rule_ids_from_scenario,
  filter_rule_ids_by_definition,
}
use nudging_tool.Engine.Keys.{dedup_scope, compute_dedup_key}
use nudging_tool.Engine.Log.{log_status}
use nudging_tool.Engine.Load.{load_rule_and_template, apply_rule_override}
use nudging_tool.Engine.Evaluate.{evaluate_rule, render}
use nudging_tool.Engine.Run.{run_single_rule}
use nudging_tool.Engine.Batch.{run_engine_batch}
use nudging_tool.Samples.{env, db, start, event, facts, welcome, switched_off}
use nudging_tool.Engine.TimeScope.Laws.{PatternOf, infer-normalize, scope_of_text_iff}
use nudging_tool.Engine.Batch.Counts.{Sized, run_engine_batch-Sized}
use nudging_tool.Engine.Resolve.Laws.{is_window, filter_rule_ids_by_definition-contains}
use nudging_tool.Prelude.{contains, any, ◌&&◌, ◌==◌}
use nudging_tool.Db.{Rule}
use nudging_tool.Json.{arr, of_texts, end, field}
use nudging_tool.Engine.Facts.{validate_facts_contract}
use nudging_tool.Engine.Facts.Laws.{validate_required_facts-of_texts, check_facts_contract-validate}
use nudging_tool.Engine.Run.Outcome.{Created, Logged, SameLogs}
use nudging_tool.Engine.Run.Results.{
  run_single_rule-Created, run_single_rule-Logged, run_single_rule-SameLogs,
}
use nudging_tool.Json.{Dict}
use nudging_tool.Session.{Error, no_result_found, Session}
use nudging_tool.Engine.{NudgeEvent}
use nudging_tool.Prelude.{◌↔◌}

statuses : Result (List EngineResult) → List EngineResultStatus
statuses (ok rs) = map (λ r. r.status) rs
statuses (err e) = []

-- All that a run of the engine computes with.
unfoldable pub program : Unit {0}
unfolding statuses ◌>>=◌ modify rollback traverse uuid4 utc_now strip lower is_digit update get put
    has deep_merge commit violation matches scope_of_text infer_time_scope normalize_time_fields
    check_facts_contract facts_from_event validate_required_facts resolve_lang
    resolve_rule_ids_from_db resolve_rule_ids_from_scenario filter_rule_ids_by_definition
    dedup_scope compute_dedup_key log_status load_rule_and_template apply_rule_override
    evaluate_rule render run_single_rule run_engine_batch
program = tt

first_run : statuses (run_engine_batch env event none (start db)).0 ≡ created ∷ []
unfolding program
first_run = refl

-- The same event again, in the session that the first run left.
second_run :
    statuses (run_engine_batch env event none (run_engine_batch env event none (start db)).1).0
    ≡ suppressed_dedup ∷ []
unfolding program
second_run = refl

abbrev with_override : Db
with_override = record db { overrides = switched_off ∷ [] }

-- One community's override, and then the event of a user of another community.
abbrev other_event : DigitalTwinEvent
other_event = record event { user_id = some "u2"; community_id = some "c2" }

override_leaks :
    statuses
      (run_engine_batch env other_event none
        (run_engine_batch env event none (start with_override)).1).0
    ≡ unknown_scenario ∷ []
unfolding program
override_leaks = refl

-- One run of the rule, the first time and the second.
abbrev normalized : Dict
normalized = normalize_time_fields facts (record { frequency = "daily"; scope = "2026-01-05" })

abbrev run : String → Session → Result EngineResult × Session
run rule_id s = run_single_rule env event "welcome" normalized rule_id "en" s

abbrev result_of : Result EngineResult → EngineResult
result_of (ok r) = r
result_of (err e) = record { status = not_triggered; nudge = none; reason = none; details = none }

abbrev error_of : Result EngineResult → Error
error_of (ok r) = no_result_found
error_of (err e) = e

run_single_rule-Created_example :
    (nudge : NudgeEvent) × ((result_of (run "welcome" (start db)).0).nudge ≡ some nudge)
    × Created db nudge (run "welcome" (start db)).1
unfolding program
run_single_rule-Created_example =
    run_single_rule-Created env event "welcome" normalized "welcome" "en" (start db) refl
      (result_of (run "welcome" (start db)).0) refl refl

run_single_rule-Logged_example :
    Logged
      (run "welcome" (start db)).1.committed
      suppressed_dedup
      (run "welcome" (run "welcome" (start db)).1).1
unfolding program
run_single_rule-Logged_example =
    run_single_rule-Logged env event "welcome" normalized "welcome" "en"
      (run "welcome" (start db)).1 refl (result_of (run "welcome" (run "welcome" (start db)).1).0)
      refl refl

-- The same rule, with a severity that no `NudgeSeverity` has.
abbrev broken : Db
broken = record db { rules = record welcome { severity = "loud" } ∷ [] }

run_single_rule-SameLogs_example : SameLogs broken (run "welcome" (start broken)).1.committed
unfolding program
run_single_rule-SameLogs_example =
    run_single_rule-SameLogs env event "welcome" normalized "welcome" "en" (start broken) refl
      (error_of (run "welcome" (start broken)).0) refl

infer-normalize_example :
    infer_time_scope normalized ≡ some (record { frequency = "daily"; scope = "2026-01-05" })
unfolding program
infer-normalize_example =
    infer-normalize facts (record { frequency = "daily"; scope = "2026-01-05" }) refl

scope_of_text_iff_example :
    (scope_of_text "2026-W07" ≡ some (record { frequency = "weekly"; scope = "2026-W07" }))
    ↔ PatternOf "weekly" "2026-W07"
scope_of_text_iff_example = scope_of_text_iff "2026-W07" "weekly"

abbrev results_of : Result (List EngineResult) → List EngineResult
results_of (ok rs) = rs
results_of (err e) = []

run_engine_batch-Sized_example : Sized 1 1 (run_engine_batch env event none (start db)).1
unfolding program
run_engine_batch-Sized_example =
    run_engine_batch-Sized env event none (start db) refl
      (results_of (run_engine_batch env event none (start db)).0) refl

filter_rule_ids_by_definition-contains_example :
    contains "welcome" (filter_rule_ids_by_definition env db ("welcome" ∷ []) "daily") ≡ (
      contains "welcome" ("welcome" ∷ [])
      && (any (λ (r : Rule). (r.id == "welcome") && r.enabled) db.rules
          && is_window env "daily" (some "daily")))
unfolding nudging_tool.Json.lookup
filter_rule_ids_by_definition-contains_example =
    filter_rule_ids_by_definition-contains env "daily" "welcome" (some "daily") ("welcome" ∷ []) db
      refl (λ same. refl, tt)

abbrev demanding : Rule
demanding = record welcome {
  definition = field "required_facts" (arr (of_texts ("time" ∷ "kwh" ∷ []))) end;
}

validate_required_facts-of_texts_example :
    validate_required_facts demanding facts ≡ ok (of_texts ("kwh" ∷ []))
unfolding program
validate_required_facts-of_texts_example =
    validate_required_facts-of_texts demanding facts ("time" ∷ "kwh" ∷ []) refl

check_facts_contract-validate_example : (validate_facts_contract facts).ok ≡ true
unfolding program
check_facts_contract-validate_example = check_facts_contract-validate facts refl
