-- ===== src/Delivery.antt =====
-- Delivery jobs (orchestrator/models.py), the results of publishers (publishers/base.py), and the
-- rows of the delivery log.
use nudging_tool.Prelude.{ℕ, String, Option, ◌∷◌}
use nudging_tool.Db.{DeliveryLog, Db}

pub data Channel : Type 0 where
  web email telegram whatsapp : Channel

abbrev pub channel_text : Channel → String
channel_text web = "web"
channel_text email = "email"
channel_text telegram = "telegram"
channel_text whatsapp = "whatsapp"

pub record DeliveryJob : Type 0 where
  pub user_id : String
  pub community_id : Option String
  pub job_id : String
  pub rule_id : String
  pub nudge_id : String
  pub notification_id : Option String
  pub channel : Channel
  pub destination : String
  pub title : String
  pub body : String
  pub dedup_key : String

pub record PublishResult : Type 0 where
  pub status : String
  pub sent_at : Option ℕ
  pub error : Option String

abbrev pub add_delivery : DeliveryLog → Db → Db
add_delivery d db = record db { deliveries = d ∷ db.deliveries }
