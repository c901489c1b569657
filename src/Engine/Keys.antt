-- ===== src/Engine/Keys.antt =====
-- The keys by which the log keeps a user from being told twice: `compute_dedup_key`,
-- `_attempt_dedup_key` and `_dedup_scope`.
use nudging_tool.Prelude.{String, ◌<>◌, ◌||◌, Option, none, some, ◌==◌, if◌then◌else◌}
use nudging_tool.Text.{lower, strip}
use nudging_tool.Json.{Json, Dict, str, truthy, or_else, text_of, get}
use nudging_tool.Db.{Rule}
use nudging_tool.Session.{Exec, pure, ◌>>=◌}
use nudging_tool.Env.{Env, uuid4, utc_now}
use nudging_tool.Engine.TimeScope.{raw_time}

-- `community_id or ""`
abbrev pub community_text : Option String → String
community_text none = ""
community_text (some c) = c

unfoldable pub compute_dedup_key : String → String → Option String → String → String
compute_dedup_key rule_id user_id community_id scope =
    rule_id <> ":" <> user_id <> ":" <> community_text community_id <> ":" <> scope

module _ (env : Env) where
  unfoldable pub attempt_dedup_key : String → String → Option String → String → Exec String
  attempt_dedup_key rule_id user_id community_id scope = do
    hex ← uuid4 env
    pure (
        "attempt:"
        <> (rule_id <> ":" <> user_id <> ":" <> community_text community_id <> ":" <> scope)
        <> ":"
        <> hex)

  -- `str((definition or {}).get("dedup_window") or "").lower().strip()`
  abbrev pub dedup_window : Rule → String
  dedup_window rule = strip (
      lower env.lower_other
        (text_of env.repr (or_else (get "dedup_window" rule.definition) (str ""))))

  -- `str(v or datetime.now(...).strftime(...))`
  abbrev pub text_or_now : Json → Exec String → Exec String
  text_or_now v now = if truthy v then pure (text_of env.repr v) else now

  abbrev this_month : Exec String
  this_month = do now ← utc_now env; pure (env.format_month now)

  abbrev this_hour : Exec String
  this_hour = do now ← utc_now env; pure (env.format_hour now)

  unfoldable pub dedup_scope : Rule → Dict → Exec String
  dedup_scope rule facts =
      if dedup_window rule == "always"
      then uuid4 env
      else if dedup_window rule == "once" || dedup_window rule == "one"
      then pure "once"
      else if dedup_window rule == "hourly"
      then text_or_now (get "hour" facts) this_hour
      else if (dedup_window rule == "daily" || dedup_window rule == "weekly")
          || dedup_window rule == "monthly"
          || dedup_window rule == "yearly"
      then text_or_now (raw_time facts) this_month
      else text_or_now (raw_time facts) this_month
