-- ===== src/Publishers/Web.antt =====
-- publishers/web/worker.py: `send_webpush`, with `get_vapid` of utils.py and the secret of
-- notifications_tracking.py. A push itself is a parameter, `webpush` of `Env`.
use nudging_tool.Prelude.{
  ℕ, ◌+◌, String, Bool, true, false, ◌&&◌, ◌||◌, Option, none, some, List, [], ◌∷◌, map, ◌==◌,
  select, is_empty, eqb, ltb, if◌then◌else◌,
}
use nudging_tool.Text.{strip}
use nudging_tool.Db.{WebPushSubscription, Db}
use nudging_tool.Session.{
  Exec, ok, value_error, runtime_error, pure, raise, query, modify, commit, ◌>>=◌, ◌>>◌,
}
use nudging_tool.Tracking.{sign_token}
use nudging_tool.Env.{Env, PushOutcome, delivered, refused, broken, utc_now}
use nudging_tool.Engine.Resolve.{same_option, is_null}
use nudging_tool.Delivery.{DeliveryJob, PublishResult, add_delivery}

-- Enabled subscriptions of the user; those of the job's community and the general ones, or all.
abbrev pub is_target : DeliveryJob → WebPushSubscription → Bool
is_target job sub = (sub.user_id == job.user_id) && sub.enabled && elim job.community_id [
  | none ↦ true
  | some c ↦ same_option sub.community_id (some c) || is_null sub.community_id
]

-- `status_code in (404, 410)`
abbrev pub is_gone : Option ℕ → Bool
is_gone none = false
is_gone (some code) = eqb code 404 || eqb code 410

abbrev pub disable_subscription : String → Db → Db
disable_subscription id db = record db {
  subscriptions =
      map (λ (x : WebPushSubscription). if x.id == id then record x { enabled = false } else x)
        db.subscriptions;
}

-- The counters of the loop over the subscriptions.
pub record Tally : Type 0 where
  pub sent : ℕ
  pub failed : ℕ
  pub last_error : Option String

module _ (env : Env) where
  -- `_tracking_secret()`
  unfoldable pub tracking_secret : Exec String
  tracking_secret =
      if is_empty (strip env.settings.click_tracking_secret)
      then (if is_empty (strip env.settings.vapid_private_key)
          then raise (
              runtime_error
                "CLICK_TRACKING_SECRET or VAPID_PRIVATE_KEY must be configured for click tracking")
          else pure (strip env.settings.vapid_private_key))
      else pure (strip env.settings.click_tracking_secret)

  -- The token in the payload of a push; a job with no notification carries none.
  unfoldable pub click_token : Option String → Exec (Option String)
  unfolding tracking_secret
  click_token none = pure none
  click_token (some id) =
      if is_empty id
      then pure none
      else do secret ← tracking_secret; pure (some (sign_token env.codec secret id))

  -- `get_vapid()`: the private key, or an exception where a setting is missing.
  unfoldable pub get_vapid : Exec String
  get_vapid =
      if is_empty (strip env.settings.vapid_private_key)
        || is_empty (strip env.settings.vapid_public_key)
        || is_empty (strip env.settings.vapid_subject)
      then raise (value_error "VAPID_PRIVATE_KEY, VAPID_PUBLIC_KEY and VAPID_SUBJECT are required")
      else pure (strip env.settings.vapid_private_key)

  unfoldable pub push : WebPushSubscription → Exec PushOutcome
  push sub s = (ok (env.webpush s.calls sub), record s { calls = s.calls + 1 })

  -- One turn of the loop: count, and disable a subscription that is gone. What is not a
  -- `WebPushException` is not caught.
  unfoldable pub count_push : WebPushSubscription → PushOutcome → Tally → Exec Tally
  count_push sub delivered t = pure (record t { sent = t.sent + 1 })
  count_push sub (refused code error) t =
      let t' : Tally = record t { failed = t.failed + 1; last_error = some error } in
      if is_gone code then (modify (disable_subscription sub.id) >> pure t') else pure t'
  count_push sub (broken e) t = raise e

  unfoldable pub push_all : List WebPushSubscription → Tally → Exec Tally
  unfolding push count_push
  push_all [] t = pure t
  push_all (sub ∷ subs) t = do outcome ← push sub; t' ← count_push sub outcome t; push_all subs t'

  -- `get_vapid` never returns an empty key, so the test for a missing one is left out.
  unfoldable pub push_to : List WebPushSubscription → Exec Tally
  unfolding push_all
  push_to [] = pure (record { sent = 0; failed = 0; last_error = some "no_subscriptions" })
  push_to (sub ∷ subs) = do
    t ← push_all (sub ∷ subs) (record { sent = 0; failed = 0; last_error = none })
    commit
    pure t

  abbrev pub push_status : Tally → String
  push_status t = if ltb 0 t.sent then "sent" else "failed"

  abbrev pub push_sent_at : ℕ → Tally → Option ℕ
  push_sent_at now t = if ltb 0 t.sent then some now else none

  unfoldable pub send_webpush : DeliveryJob → Exec PublishResult
  unfolding click_token get_vapid push_to
  send_webpush job = do
    now ← utc_now env
    subs ← query (λ db. select (is_target job) db.subscriptions)
    token ← click_token job.notification_id
    key ← get_vapid
    t ← push_to subs
    modify (
        add_delivery (record {
          id = job.job_id;
          nudge_id = job.nudge_id;
          channel = "webpush";
          destination = job.destination;
          status = push_status t;
          error = t.last_error;
          created_at = now;
          sent_at = push_sent_at now t;
        }))
    commit
    pure (record { status = push_status t; sent_at = push_sent_at now t; error = t.last_error })
