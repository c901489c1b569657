-- ===== src/Engine.antt =====
-- The data of engine/engine_service.py and engine/rules/models.py. The modules below follow the
-- functions of the engine in the order in which an event goes through them.
pub mod TimeScope
pub mod Facts
pub mod Resolve
pub mod Keys
pub mod Log
pub mod Load
pub mod Evaluate
pub mod Run
pub mod Batch
mod Tests
use nudging_tool.Prelude.{ℕ, String, Bool, true, false, Option, none, some, ◌==◌, if◌then◌else◌}
use nudging_tool.Json.{Dict}
use nudging_tool.Session.{Result, ok, err, value_error}

pub data EngineResultStatus : Type 0 where
  created not_triggered missing_facts unknown_scenario suppressed_dedup : EngineResultStatus

-- The `.value` of a status.
abbrev pub status_text : EngineResultStatus → String
status_text created = "created"
status_text not_triggered = "not_triggered"
status_text missing_facts = "missing_facts"
status_text unknown_scenario = "unknown_scenario"
status_text suppressed_dedup = "suppressed_dedup"

abbrev pub is_created : EngineResultStatus → Bool
is_created created = true
is_created _ = false

pub data NudgeType : Type 0 where
  informative opportunity alert : NudgeType

-- `NudgeType(text)`
abbrev pub parse_nudge_type : String → Result NudgeType
parse_nudge_type s =
    if s == "informative"
    then ok informative
    else if s == "opportunity"
    then ok opportunity
    else if s == "alert"
    then ok alert
    else err (value_error "invalid NudgeType")

abbrev pub nudge_type_text : NudgeType → String
nudge_type_text informative = "informative"
nudge_type_text opportunity = "opportunity"
nudge_type_text alert = "alert"

pub data NudgeSeverity : Type 0 where
  info warning critical : NudgeSeverity

-- `NudgeSeverity(text)`
abbrev pub parse_nudge_severity : String → Result NudgeSeverity
parse_nudge_severity s =
    if s == "info"
    then ok info
    else if s == "warning"
    then ok warning
    else if s == "critical"
    then ok critical
    else err (value_error "invalid NudgeSeverity")

abbrev pub nudge_severity_text : NudgeSeverity → String
nudge_severity_text info = "info"
nudge_severity_text warning = "warning"
nudge_severity_text critical = "critical"

pub record DigitalTwinEvent : Type 0 where
  pub event_type : String
  pub user_id : Option String
  pub community_id : Option String
  pub payload : Dict
  pub facts : Dict

-- `str(evt.user_id)`
abbrev pub user_text : DigitalTwinEvent → String
user_text evt = elim evt.user_id [ none ↦ "None" | some u ↦ u ]

pub record NudgeEvent : Type 0 where
  pub nudge_id : String
  pub rule_id : String
  pub family : String
  pub type : NudgeType
  pub severity : NudgeSeverity
  pub user_id : String
  pub facts : Dict
  pub render_context : Dict
  pub title : String
  pub body : String

pub record EngineResult : Type 0 where
  pub status : EngineResultStatus
  pub nudge : Option NudgeEvent
  pub reason : Option String
  pub details : Option Dict

-- An `EngineResult` with no nudge.
abbrev pub refusal : EngineResultStatus → String → Option Dict → EngineResult
refusal status reason details = record {
  status = status;
  nudge = none;
  reason = some reason;
  details = details;
}
