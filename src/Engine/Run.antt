-- ===== src/Engine/Run.antt =====
-- `_run_single_rule`: one rule on one event. The parts stand in the order of the source: what its
-- `try` block prepares, the required facts, the evaluation, and the row that the dedup key guards.
pub mod Outcome
pub mod Quiet
pub mod Total
pub mod Staged
pub mod Results
use nudging_tool.Prelude.{ℕ, String, Option, none, some, ◌∷◌, ◌==◌, if◌then◌else◌}
use nudging_tool.Json.{
  Json, Items, Dict, null, str, arr, obj, nil, cons, end, field, or_else, text_of, get, update,
}
use nudging_tool.Db.{Rule, Template, NudgeLog, Notification, Db}
use nudging_tool.Session.{
  Exec, Result, ok, err, validation_error, integrity_error, pure, raise, lift, modify, commit,
  rollback, except_value_error, except_integrity_error, ◌>>=◌, ◌>>◌,
}
use nudging_tool.Env.{Env, uuid4, utc_now}
use nudging_tool.Engine.{
  EngineResultStatus, created, not_triggered, missing_facts, unknown_scenario, suppressed_dedup,
  parse_nudge_type, parse_nudge_severity, nudge_type_text, nudge_severity_text, DigitalTwinEvent,
  user_text, NudgeEvent, EngineResult, refusal,
}
use nudging_tool.Engine.TimeScope.{raw_time}
use nudging_tool.Engine.Facts.{validate_required_facts}
use nudging_tool.Engine.Keys.{compute_dedup_key, dedup_scope}
use nudging_tool.Engine.Log.{Subject, log_status}
use nudging_tool.Engine.Load.{load_rule_and_template, apply_rule_override}
use nudging_tool.Engine.Evaluate.{text_or, evaluate_rule, render}

-- `str(facts.get(k) or "")`
abbrev pub text_field : (Json → String) → String → Dict → String
text_field repr k facts = text_of repr (or_else (get k facts) (str ""))

abbrev pub reason_details : String → Option Dict
reason_details reason = some (field "reason" (str reason) end)

abbrev pub key_details : String → Dict
key_details key = field "dedup_key" (str key) end

abbrev pub opt_str : Option String → Json
opt_str none = null
opt_str (some s) = str s

abbrev pub add_nudge_and_notification : NudgeLog → Notification → Db → Db
add_nudge_and_notification n x db = record db {
  nudges = n ∷ db.nudges;
  notifications = x ∷ db.notifications;
}

-- The `try` block ends the run, or goes on with a rule, a template and a dedup scope.
pub data Prepared : Type 0 where
  finished : EngineResult → Prepared
  ready : Rule → Template → (scope : String) → Prepared

module _ (env : Env) (evt : DigitalTwinEvent) (scenario : String) (facts_in : Dict) where
  -- The row of the log about this event, for a rule, a scope and facts.
  abbrev pub subject : String → String → Dict → Subject
  subject rule_id scope facts = record {
    rule_id = rule_id;
    user_id = user_text evt;
    community_id = evt.community_id;
    scope = scope;
    scenario = scenario;
    facts_version = text_field env.repr "facts_version" facts_in;
    facts = facts;
  }

  abbrev pub scope_or_none : String
  scope_or_none = text_of env.repr (or_else (raw_time facts_in) (str "__no_scope__"))

  -- A row in the log, and the result that goes with it.
  unfoldable pub refuse :
      EngineResultStatus → Subject → String → Option Dict → Option Dict → Exec EngineResult
  refuse status x reason logged details = do
    log_status env status x logged
    pure (refusal status reason details)

  prepare_rule : Rule → Template → Exec Prepared
  unfolding refuse
  prepare_rule rule tmpl =
      if rule.enabled
      then (do scope ← dedup_scope env rule facts_in; pure (ready rule tmpl scope))
      else (do
        r ←
            refuse not_triggered (subject rule.id scope_or_none facts_in) "disabled_by_override"
              (reason_details "disabled_by_override") none
        pure (finished r))

  prepare : String → String → Exec Prepared
  unfolding prepare_rule
  prepare rule_id lang = do
    loaded ← load_rule_and_template rule_id lang
    rule ← apply_rule_override loaded.0 evt.community_id
    prepare_rule rule loaded.1

  prepare_failed : String → String → Exec Prepared
  unfolding refuse
  prepare_failed rule_id message = do
    r ←
        refuse unknown_scenario (subject rule_id scope_or_none facts_in) message
          (reason_details message) none
    pure (finished r)

  abbrev nudge_row : NudgeEvent → String → ℕ → NudgeLog
  nudge_row nudge key now = record {
    id = nudge.nudge_id;
    rule_id = nudge.rule_id;
    user_id = nudge.user_id;
    community_id = evt.community_id;
    dedup_key = key;
    status = "created";
    payload = field "scenario" (str scenario) (
        field "facts_version" (str (text_field env.repr "facts_version" facts_in))
          (field "facts" (obj nudge.facts) end));
    created_at = now;
  }

  abbrev notification_row : NudgeEvent → String → ℕ → Notification
  notification_row nudge id now = record {
    id = id;
    nudge_log_id = nudge.nudge_id;
    rule_id = nudge.rule_id;
    user_id = nudge.user_id;
    family = nudge.family;
    type = nudge_type_text nudge.type;
    severity = nudge_severity_text nudge.severity;
    title = nudge.title;
    body = nudge.body;
    status = "pending";
    read_at = none;
    clicked_at = none;
    click_action = none;
    deleted_at = none;
    created_at = now;
  }

  -- The commit of the nudge and its notification.
  unfoldable pub save_rows : NudgeEvent → (key id : String) → (now : ℕ) → Exec Unit
  save_rows nudge key id now = do
    modify (add_nudge_and_notification (nudge_row nudge key now) (notification_row nudge id now))
    commit

  -- The rows of a nudge, and what a duplicate key leads to.
  unfoldable pub save : NudgeEvent → String → String → Exec EngineResult
  unfolding refuse save_rows
  save nudge key scope =
      except_integrity_error
        (do
          notification_id ← uuid4 env
          now ← utc_now env
          save_rows nudge key notification_id now
          pure (record {
            status = created;
            nudge = some nudge;
            reason = none;
            details = some (
                field "dedup_key" (str key)
                  (field "scenario" (str scenario) (field "rule_id" (str nudge.rule_id) end)));
          }))
        (λ constraint.
          rollback
          >> (if constraint == "uq_nudges_dedup_key"
              then refuse suppressed_dedup (subject nudge.rule_id scope facts_in)
                  "duplicate_in_dedup_window"
                  (some (field "reason" (str "duplicate_in_dedup_window") (key_details key)))
                  (some (key_details key))
              else raise (integrity_error constraint)))

  -- `NudgeEvent(...)`: the enumerations refuse an unknown text, the model a missing user.
  unfoldable pub make_nudge : Rule → String → Dict → Dict → String × String → Result NudgeEvent
  make_nudge rule nudge_id facts ctx rendered = elim (parse_nudge_type rule.type) [
    | err e ↦ err e
    | ok type ↦ elim (parse_nudge_severity rule.severity) [
      | err e ↦ err e
      | ok severity ↦ elim evt.user_id [
        | none ↦ err (validation_error "user_id")
        | some user_id ↦ ok (record {
          nudge_id = nudge_id;
          rule_id = rule.id;
          family = rule.family;
          type = type;
          severity = severity;
          user_id = user_id;
          facts = facts;
          render_context = ctx;
          title = rendered.0;
          body = rendered.1;
        })
      ]
    ]
  ]

  abbrev pub render_context : String → Dict → Dict
  render_context now facts =
      update
        (field "now" (str now) (
          field "user_id" (opt_str evt.user_id)
            (field "community_id" (opt_str evt.community_id) end)))
        facts

  -- From the trigger on.
  unfoldable pub create : Rule → Template → String → Dict → Exec EngineResult
  unfolding make_nudge save
  create rule tmpl scope facts = do
    now ← utc_now env
    let ctx = render_context (env.isoformat now) facts
    rendered ← lift (render env tmpl ctx)
    nudge_id ← uuid4 env
    nudge ← lift (make_nudge rule nudge_id facts ctx rendered)
    save nudge (compute_dedup_key rule.id nudge.user_id evt.community_id scope) scope

  evaluate : Rule → Template → String → Exec EngineResult
  unfolding create refuse
  evaluate rule tmpl scope = do
    outcome ← lift (evaluate_rule env rule facts_in)
    let reason = text_or "not_triggered" outcome.2
    (if outcome.0
        then create rule tmpl scope outcome.1
        else refuse not_triggered (subject rule.id scope outcome.1) reason (reason_details reason)
            none)

  abbrev check_missing : Rule → Template → String → Items → Exec EngineResult
  check_missing rule tmpl scope nil = evaluate rule tmpl scope
  check_missing rule tmpl scope (cons k ks) =
      refuse missing_facts (subject rule.id scope facts_in) "missing_required_facts"
        (some (field "missing" (arr (cons k ks)) end))
        (some (field "missing" (arr (cons k ks)) end))

  run_prepared : Prepared → Exec EngineResult
  unfolding evaluate
  run_prepared (finished r) = pure r
  run_prepared (ready rule tmpl scope) = do
    missing ← lift (validate_required_facts rule facts_in)
    check_missing rule tmpl scope missing

  unfoldable pub run_single_rule : (rule_id lang : String) → Exec EngineResult
  unfolding prepare prepare_failed run_prepared
  run_single_rule rule_id lang = do
    prepared ← except_value_error (prepare rule_id lang) (prepare_failed rule_id)
    run_prepared prepared
