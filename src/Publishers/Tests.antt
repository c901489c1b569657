-- ===== src/Publishers/Tests.antt =====
-- A push to a user who has one subscription.
use nudging_tool.Prelude.{refl, none, some, true, [], ◌∷◌}
use nudging_tool.Text.{strip}
use nudging_tool.Db.{WebPushSubscription}
use nudging_tool.Session.{Session, modify, commit, violation, ◌>>=◌}
use nudging_tool.Env.{utc_now}
use nudging_tool.Delivery.{web, PublishResult}
use nudging_tool.Publishers.{publish}
use nudging_tool.Publishers.Web.{send_webpush}
use nudging_tool.Publishers.Logged.{Delivered, publish-Delivered}
use nudging_tool.Samples.{env, db, start, job}

abbrev subscription : WebPushSubscription
subscription = record {
  id = "s1";
  user_id = "u1";
  community_id = none;
  endpoint = "https://push/1";
  p256dh = "key";
  auth = "auth";
  enabled = true;
}

abbrev subscribed : Session
subscribed = start (record db { subscriptions = subscription ∷ [] })

abbrev answer : PublishResult
answer = record { status = "sent"; sent_at = some 1000; error = none }

publish-Delivered_example : Delivered [] job answer (publish env web job subscribed).1
unfolding publish send_webpush utc_now modify commit violation strip ◌>>=◌
publish-Delivered_example = publish-Delivered env web job subscribed answer refl
