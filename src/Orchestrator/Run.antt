-- ===== src/Orchestrator/Run.antt =====
-- `orchestrate`: what becomes of a nudge, by the kinds that its user enables, the daily limit, and
-- what the publishers report.
pub mod Laws
pub mod Nudge
use nudging_tool.Prelude.{
  ℕ, String, Bool, true, false, not, ◌&&◌, Option, none, some, List, [], ◌∷◌, map, ◌==◌, contains,
  select, any, all, is_nil, if◌then◌else◌,
}
use nudging_tool.Db.{Rule, UserPreference, NudgeLog, Notification, DeliveryLog, Db}
use nudging_tool.Session.{
  Exec, Session, ok, pure, lift, query, modify, commit, scalar_one, for_each, traverse, ◌>>=◌, ◌>>◌,
}
use nudging_tool.Env.{Env, ActiveKind, utc_now}
use nudging_tool.Delivery.{Channel, channel_text, DeliveryJob, PublishResult, add_delivery}
use nudging_tool.Publishers.{publish}
use nudging_tool.Orchestrator.Kinds.{enabled_kinds, get_user_pref, rule_kind, rules_by_id}
use nudging_tool.Orchestrator.Jobs.{web_destination, build_delivery_jobs}
use nudging_tool.Orchestrator.Limit.{can_send_today, sent_count}

abbrev pub set_notification_status : String → String → Db → Db
set_notification_status id status db = record db {
  notifications =
      map (λ (x : Notification). if x.id == id then record x { status = status } else x)
        db.notifications;
}

-- `pref.max_per_day if pref else 3`
abbrev pub max_per_day : Option UserPreference → ℕ
max_per_day none = 3
max_per_day (some pref) = pref.max_per_day

-- The status of a notification after its deliveries.
unfoldable pub final_status : List String → String
final_status results =
    if any (λ status. status == "sent") results
    then "sent"
    else if not (is_nil results) && all (λ status. status == "suppressed") results
    then "suppressed"
    else "failed"

-- `rule_kind and rule_kind not in enabled_kinds`; a rule's kind is never empty.
abbrev pub is_disabled : Option String → List String → Bool
is_disabled none enabled = false
is_disabled (some kind) enabled = not (contains kind enabled)

module _ (env : Env) where
  unfoldable pub suppress_job : String → DeliveryJob → Exec Unit
  suppress_job error job = do
    now ← utc_now env
    modify (
        add_delivery (record {
          id = job.job_id;
          nudge_id = job.nudge_id;
          channel = channel_text job.channel;
          destination = job.destination;
          status = "suppressed";
          error = some error;
          created_at = now;
          sent_at = none;
        }))

  -- A row for each job that is held back, and nothing is published.
  unfoldable pub suppress : Notification → String → List DeliveryJob → Exec (List DeliveryJob)
  unfolding suppress_job
  suppress notification error jobs = do
    for_each (suppress_job error) jobs
    modify (set_notification_status notification.id "suppressed")
    commit
    pure []

  unfoldable pub dispatch : Notification → List DeliveryJob → Exec (List DeliveryJob)
  unfolding final_status
  dispatch notification jobs = do
    results ← traverse (λ (job : DeliveryJob). publish env job.channel job) jobs
    modify (
        set_notification_status notification.id
          (final_status (map (λ (r : PublishResult). r.status) results)))
    commit
    pure jobs

  -- The three ways out, by the kind, by the limit, or to the publishers.
  unfoldable pub decide :
      Notification → (disabled allowed : Bool) → List DeliveryJob → Exec (List DeliveryJob)
  unfolding suppress dispatch
  decide notification disabled allowed jobs =
      if disabled
      then suppress notification "kind_disabled" jobs
      else if not allowed
      then suppress notification "rate_limited" jobs
      else dispatch notification jobs

  unfoldable pub orchestrate : String → Exec (List DeliveryJob)
  unfolding decide
  orchestrate nudge_id = do
    logs ← query (λ db. select (λ (x : NudgeLog). x.id == nudge_id) db.nudges)
    n ← lift (scalar_one logs)
    rows ← query (λ db. select (λ (x : Notification). x.nudge_log_id == nudge_id) db.notifications)
    notification ← lift (scalar_one rows)
    pref ← query (λ db. get_user_pref env db n.user_id n.community_id)
    active ← lift env.active_kinds
    kind ← query (λ db. rule_kind (rules_by_id n.rule_id db))
    now ← utc_now env
    sent_today ←
        query (sent_count env (web_destination n.user_id n.community_id) (env.local_day now))
    jobs ← build_delivery_jobs env n notification pref
    decide notification (is_disabled kind (enabled_kinds pref active))
        (can_send_today sent_today (max_per_day pref)) jobs
