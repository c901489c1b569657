-- ===== src/Orchestrator/Jobs.antt =====
-- `_build_delivery_jobs`: the push of a nudge, unless it came for e-mail addresses only, and one
-- job for each address.
pub mod Laws
use nudging_tool.Prelude.{
  String, ◌<>◌, Bool, not, ◌&&◌, Option, none, some, List, [], ◌∷◌, ◌++◌, map, is_nil,
  if◌then◌else◌,
}
use text.Mathlib.Text.{starts_with}
use nudging_tool.Db.{NudgeLog, Notification, UserPreference}
use nudging_tool.Session.{Exec, pure, traverse, ◌>>=◌}
use nudging_tool.Env.{Env, uuid4}
use nudging_tool.Delivery.{Channel, web, email, DeliveryJob}
use nudging_tool.Orchestrator.Recipients.{explicit_email_recipients}

-- `_is_email_only_ingest`
unfoldable pub is_email_only_ingest : NudgeLog → List String → Bool
is_email_only_ingest n recipients = not (is_nil recipients) && starts_with n.user_id "email-ingest:"

-- `f"web:{user}:{community}"`, without the community where there is none.
abbrev pub web_destination : String → Option String → String
web_destination user_id none = "web:" <> user_id
web_destination user_id (some String.[]) = "web:" <> user_id
web_destination user_id (some (String.◌∷◌ c s)) = "web:" <> user_id <> ":" <> String.◌∷◌ c s

abbrev pub preferred_email : Option String → List String
preferred_email none = []
preferred_email (some String.[]) = []
preferred_email (some (String.◌∷◌ c s)) = String.◌∷◌ c s ∷ []

abbrev pref_recipients : Option UserPreference → List String
pref_recipients none = []
pref_recipients (some pref) = if pref.channel_email then preferred_email pref.email else []

-- The explicit addresses, or the address of the preference.
abbrev pub job_recipients : List String → Option UserPreference → List String
job_recipients [] pref = pref_recipients pref
job_recipients (r ∷ rs) pref = r ∷ rs

module _ (env : Env) (n : NudgeLog) (notification : Notification) where
  unfoldable pub make_job : Channel → String → Exec DeliveryJob
  make_job channel destination = do
    job_id ← uuid4 env
    pure (record {
      user_id = n.user_id;
      community_id = n.community_id;
      job_id = job_id;
      rule_id = n.rule_id;
      nudge_id = n.id;
      notification_id = some notification.id;
      channel = channel;
      destination = destination;
      title = notification.title;
      body = notification.body;
      dedup_key = n.dedup_key;
    })

  -- The channel and destination of each job, in order.
  unfoldable pub job_targets : Option UserPreference → List (Channel × String)
  job_targets pref =
      let explicit = explicit_email_recipients env.lower_other n.payload in
      (if is_email_only_ingest n explicit
        then []
        else (web, web_destination n.user_id n.community_id) ∷ [])
      ++ map (λ r. (email, r)) (job_recipients explicit pref)

  unfoldable pub build_delivery_jobs : Option UserPreference → Exec (List DeliveryJob)
  unfolding make_job job_targets
  build_delivery_jobs pref = traverse (λ target. make_job target.0 target.1) (job_targets pref)
