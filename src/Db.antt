-- ===== src/Db.antt =====
-- The tables of db/models.py, one record for each mapped class, and the database as the rows of
-- each table, newest first. A time is a number of microseconds; a nullable column is an `Option`.
use nudging_tool.Prelude.{ℕ, String, Bool, Option, List}
use nudging_tool.Json.{Json, Dict}

pub record Rule : Type 0 where
  pub id : String
  pub name : String
  pub enabled : Bool
  pub family : String
  pub type : String
  pub severity : String
  pub definition : Dict
  pub version : ℕ
  pub scenarios : Json

pub record RuleOverride : Type 0 where
  pub rule_id : String
  pub community_id : String
  pub enabled_override : Option Bool
  pub definition_override : Dict

pub record Template : Type 0 where
  pub id : String
  pub rule_id : String
  pub lang : String
  pub title_jinja : String
  pub body_jinja : String

pub record UserPreference : Type 0 where
  pub id : String
  pub user_id : String
  pub community_id : Option String
  pub lang : String
  pub channel_web : Bool
  pub channel_email : Bool
  pub channel_telegram : Bool
  pub channel_whatsapp : Bool
  pub email : Option String
  pub telegram_chat_id : Option String
  pub whatsapp_phone : Option String
  pub max_per_day : ℕ
  pub consents : Json
  pub updated_at : ℕ

pub record NudgeLog : Type 0 where
  pub id : String
  pub rule_id : String
  pub user_id : String
  pub community_id : Option String
  pub dedup_key : String
  pub status : String
  pub payload : Dict
  pub created_at : ℕ

pub record Notification : Type 0 where
  pub id : String
  pub nudge_log_id : String
  pub rule_id : String
  pub user_id : String
  pub family : String
  pub type : String
  pub severity : String
  pub title : String
  pub body : String
  pub status : String
  pub read_at : Option ℕ
  pub clicked_at : Option ℕ
  pub click_action : Option String
  pub deleted_at : Option ℕ
  pub created_at : ℕ

pub record DeliveryLog : Type 0 where
  pub id : String
  pub nudge_id : String
  pub channel : String
  pub destination : String
  pub status : String
  pub error : Option String
  pub created_at : ℕ
  pub sent_at : Option ℕ

pub record WebPushSubscription : Type 0 where
  pub id : String
  pub user_id : String
  pub community_id : Option String
  pub endpoint : String
  pub p256dh : String
  pub auth : String
  pub enabled : Bool

pub record ScheduledEvent : Type 0 where
  pub id : String
  pub event_type : String
  pub user_id : String
  pub community_id : Option String
  pub external_key : Option String
  pub trigger_at : ℕ
  pub facts : Dict
  pub status : String
  pub last_error : Option String
  pub dispatched_at : Option ℕ

pub record Db : Type 0 where
  pub rules : List Rule
  pub overrides : List RuleOverride
  pub templates : List Template
  pub preferences : List UserPreference
  pub nudges : List NudgeLog
  pub notifications : List Notification
  pub deliveries : List DeliveryLog
  pub subscriptions : List WebPushSubscription
  pub scheduled : List ScheduledEvent
