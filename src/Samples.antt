-- ===== src/Samples.antt =====
-- A small world for the tests: an environment, a database with one rule, and events.
use nudging_tool.Prelude.{
  ℕ, zero, suc, ◌+◌, code, eqb, is_empty, Bool, ◌&&◌, String, ◌<>◌, true, false, none, some, List,
  [], ◌∷◌,
}
use nudging_tool.Json.{null, Dict, str, obj, arr, nil, cons, end, field}
use nudging_tool.Db.{Rule, RuleOverride, Template, UserPreference, Notification, Db}
use nudging_tool.Session.{Session, ok}
use nudging_tool.Env.{Settings, Evaluator, delivered, ActiveKind, Env}
use nudging_tool.Delivery.{web, DeliveryJob}
use nudging_tool.Engine.{DigitalTwinEvent}

abbrev pub tally : ℕ → String
tally zero = ""
tally (suc n) = "i" <> tally n

abbrev pub settings : Settings
settings = record {
  default_lang = "en";
  seed_dir = some "./seed";
  max_per_day_default = 3;
  vapid_public_key = "public";
  vapid_private_key = "private";
  vapid_subject = "mailto:dev@example.com";
  click_tracking_secret = "secret";
  smtp_host = "";
  email_from = "";
  scenario_to_rule_ids = [];
}

-- `seed/rules/welcome/evaluate.py`: always triggered.
abbrev pub always : Evaluator
always rule facts = ok (true, facts, none)

-- `LIKE` for a pattern that ends in `%` and has no other wildcard.
abbrev pub like_prefix : (pattern text : String) → Bool
like_prefix String.[] t = is_empty t
like_prefix (String.◌∷◌ p String.[]) t = true
like_prefix (String.◌∷◌ p (String.◌∷◌ q ps)) String.[] = false
like_prefix (String.◌∷◌ p (String.◌∷◌ q ps)) (String.◌∷◌ c t) =
    eqb (code c) (code p) && like_prefix (String.◌∷◌ q ps) t

abbrev pub env : Env
env = record {
  settings = settings;
  uuid = tally;
  clock = λ n. 1000 + n;
  isoformat = λ _. "2026-01-05T00:00:00+00:00";
  format_month = λ _. "2026-01";
  format_hour = λ _. "2026-01-05T00";
  local_day = λ _. 20458;
  db_day = λ _. 20458;
  active_kinds = ok (
      record { kind = "welcome"; label = []; description = []; cadence = []; editable = true }
      ∷ []);
  lower_other = λ _. "";
  repr = λ _. "None";
  jinja = λ t _. ok t;
  path_is_absolute = λ _. false;
  path_name = λ p. p;
  path_join = λ p q. p <> "/" <> q;
  load_path = λ _. some always;
  load_module = λ _. none;
  codec = record {
    b64encode = λ raw. raw;
    b64decode = λ value. ok value;
    hmac_sha256 = λ secret message. secret <> message;
    json_dumps = λ d. "{}";
    json_loads = λ raw. ok null;
  };
  webpush = λ _ _. delivered;
  send_mail = λ _ _. none;
  like = like_prefix;
  sha256_prefix = λ t. t;
}

abbrev pub welcome : Rule
welcome = record {
  id = "welcome";
  name = "Welcome";
  enabled = true;
  family = "onboarding";
  type = "informative";
  severity = "info";
  definition =
      field "kind" (str "welcome")
        (field "dedup_window" (str "daily") (field "evaluator_path" (str "evaluate.py") end));
  version = 1;
  scenarios = arr (cons (str "welcome") nil);
}

abbrev pub welcome_en : Template
welcome_en = record {
  id = "tpl_welcome_en";
  rule_id = "welcome";
  lang = "en";
  title_jinja = "Hello";
  body_jinja = "Welcome aboard";
}

abbrev pub db : Db
db = record {
  rules = welcome ∷ [];
  overrides = [];
  templates = welcome_en ∷ [];
  preferences = [];
  nudges = [];
  notifications = [];
  deliveries = [];
  subscriptions = [];
  scheduled = [];
}

abbrev pub start : Db → Session
start d = record { committed = d; working = d; draws = 0; ticks = 0; calls = 0; rollbacks = 0 }

abbrev pub facts : Dict
facts =
    field "facts_version" (str "1")
      (field "scenario" (str "welcome") (field "time" (str " 2026-01-05 ") end))

abbrev pub event : DigitalTwinEvent
event = record {
  event_type = "dt";
  user_id = some "u1";
  community_id = some "c1";
  payload = end;
  facts = facts;
}

-- The community `c1` has switched the rule off.
abbrev pub switched_off : RuleOverride
switched_off = record {
  rule_id = "welcome";
  community_id = "c1";
  enabled_override = some false;
  definition_override = end;
}

abbrev pub notification : Notification
notification = record {
  id = "n1";
  nudge_log_id = "l1";
  rule_id = "welcome";
  user_id = "u1";
  family = "onboarding";
  type = "informative";
  severity = "info";
  title = "Hello";
  body = "Welcome aboard";
  status = "sent";
  read_at = none;
  clicked_at = none;
  click_action = none;
  deleted_at = none;
  created_at = 1000;
}

-- One kind that the user can edit, and one that it cannot.
abbrev pub active : List ActiveKind
active =
    record { kind = "welcome"; label = []; description = []; cadence = []; editable = true }
    ∷ record { kind = "outage"; label = []; description = []; cadence = []; editable = false }
    ∷ []

abbrev pub preference : UserPreference
preference = record {
  id = "p1";
  user_id = "u1";
  community_id = none;
  lang = "en";
  channel_web = true;
  channel_email = false;
  channel_telegram = false;
  channel_whatsapp = false;
  email = none;
  telegram_chat_id = none;
  whatsapp_phone = none;
  max_per_day = 3;
  consents = obj end;
  updated_at = 1000;
}

abbrev pub job : DeliveryJob
job = record {
  user_id = "u1";
  community_id = none;
  job_id = "j1";
  rule_id = "welcome";
  nudge_id = "l1";
  notification_id = some "n1";
  channel = web;
  destination = "web:u1";
  title = "Hello";
  body = "Welcome aboard";
  dedup_key = "welcome:u1::2026-01-05";
}
