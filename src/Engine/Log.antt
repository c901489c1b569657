-- ===== src/Engine/Log.antt =====
-- `_log_status`: a row of the audit log for an event that created no nudge.
use nudging_tool.Prelude.{String, Option, none, some, ◌∷◌}
use nudging_tool.Json.{Dict, str, obj, end, field}
use nudging_tool.Db.{NudgeLog, Db}
use nudging_tool.Session.{Exec, modify, commit, ◌>>=◌, ◌>>◌}
use nudging_tool.Env.{Env, uuid4, utc_now}
use nudging_tool.Engine.{EngineResultStatus, status_text}
use nudging_tool.Engine.Keys.{attempt_dedup_key}

abbrev pub add_nudge : NudgeLog → Db → Db
add_nudge n db = record db { nudges = n ∷ db.nudges }

-- `details or {}`
abbrev or_empty : Option Dict → Dict
or_empty none = end
or_empty (some d) = d

-- What a row of the log is about.
pub record Subject : Type 0 where
  pub rule_id : String
  pub user_id : String
  pub community_id : Option String
  pub scope : String
  pub scenario : String
  pub facts_version : String
  pub facts : Dict

abbrev pub audit_payload : Subject → Option Dict → Dict
audit_payload x details = field "scenario" (str x.scenario) (
    field "facts_version" (str x.facts_version)
      (field "facts" (obj x.facts) (field "details" (obj (or_empty details)) end)))

module _ (env : Env) where
  unfoldable pub log_status : EngineResultStatus → Subject → Option Dict → Exec Unit
  unfolding attempt_dedup_key
  log_status status x details = do
    id ← uuid4 env
    key ← attempt_dedup_key env x.rule_id x.user_id x.community_id x.scope
    now ← utc_now env
    modify (
        add_nudge (record {
          id = id;
          rule_id = x.rule_id;
          user_id = x.user_id;
          community_id = x.community_id;
          dedup_key = key;
          status = status_text status;
          payload = audit_payload x details;
          created_at = now;
        }))
    commit
