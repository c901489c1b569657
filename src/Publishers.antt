-- ===== src/Publishers.antt =====
-- publishers/registry.py: the publisher of a channel.
pub mod Web
pub mod Email
pub mod Logged
mod Tests
use nudging_tool.Prelude.{String}
use nudging_tool.Session.{Exec, value_error, raise}
use nudging_tool.Env.{Env}
use nudging_tool.Delivery.{Channel, web, email, telegram, whatsapp, DeliveryJob, PublishResult}
use Web.{send_webpush}
use Email.{send_email}

-- `get_publisher(channel).send(db, job)`
unfoldable pub publish : Env → Channel → DeliveryJob → Exec PublishResult
publish env web job = send_webpush env job
publish env email job = send_email env job
publish env telegram job = raise (value_error "No publisher registered for channel=telegram")
publish env whatsapp job = raise (value_error "No publisher registered for channel=whatsapp")
