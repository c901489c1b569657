-- ===== src/Env.antt =====
-- What the program takes from outside: its settings (config/settings.py), the clock, uuid4, the
-- case tables of Unicode, and the packages that it calls (Jinja2, importlib, pywebpush, smtplib,
-- hashlib). Each is a parameter; a value that can differ from call to call takes the call's number.
use nudging_tool.Prelude.{ℕ, ◌+◌, Char, String, Bool, Option, List}
use nudging_tool.Json.{Json, Dict}
use nudging_tool.Db.{Rule, WebPushSubscription}
use nudging_tool.Tracking.{Codec}
use nudging_tool.Session.{Error, Result, ok, Exec}

-- An evaluator: whether the rule triggers, the enriched facts, and the reason.
abbrev pub Evaluator : Type 0
Evaluator = Rule → Dict → Result (Bool × Dict × Option String)

pub record Settings : Type 0 where
  pub default_lang : String
  pub seed_dir : Option String
  pub max_per_day_default : ℕ
  pub vapid_public_key : String
  pub vapid_private_key : String
  pub vapid_subject : String
  pub click_tracking_secret : String
  pub smtp_host : String
  pub email_from : String
  pub scenario_to_rule_ids : List (String × List String)

-- What one call of pywebpush's `webpush` did: `refused` is a `WebPushException` with the status of
-- its response, if it has one, and its text; `broken` is any other exception, such as that of a
-- connection or of a key that cannot be read.
pub data PushOutcome : Type 0 where
  delivered : PushOutcome
  refused : (status_code : Option ℕ) → (error : String) → PushOutcome
  broken : Error → PushOutcome

-- An entry of active_kinds.yaml, as seed/schema.py validates it.
pub record ActiveKind : Type 0 where
  pub kind : String
  pub label : List (String × String)
  pub description : List (String × String)
  pub cadence : List (String × String)
  pub editable : Bool

pub record Env : Type 0 where
  pub settings : Settings
  pub uuid : ℕ → String
  pub clock : ℕ → ℕ
  pub isoformat : ℕ → String
  pub format_month : ℕ → String
  pub format_hour : ℕ → String
  pub local_day : ℕ → ℕ
  pub db_day : ℕ → ℕ
  pub active_kinds : Result (List ActiveKind)
  pub lower_other : Char → String
  pub repr : Json → String
  pub jinja : String → Dict → Result String
  pub path_is_absolute : String → Bool
  pub path_name : String → String
  pub path_join : String → String → String
  pub load_path : String → Option Evaluator
  pub load_module : String → Option Evaluator
  pub codec : Codec
  pub webpush : ℕ → WebPushSubscription → PushOutcome
  pub send_mail : ℕ → String → Option String
  -- SQL's `LIKE`.
  pub like : (pattern text : String) → Bool
  pub sha256_prefix : String → String

module _ (env : Env) where
  -- `uuid4().hex`
  unfoldable pub uuid4 : Exec String
  uuid4 s = (ok (env.uuid s.draws), record s { draws = s.draws + 1 })

  -- `datetime.now(timezone.utc)`
  unfoldable pub utc_now : Exec ℕ
  utc_now s = (ok (env.clock s.ticks), record s { ticks = s.ticks + 1 })
