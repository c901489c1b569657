-- ===== src/Orchestrator/Tests.antt =====
-- A nudge that is held back, and the lists that the orchestrator reads.
use nudging_tool.Prelude.{
  ◌≡◌, refl, true, false, none, some, List, [], ◌∷◌, ◌⊎◌, ◌↔◌, is_nil, all, ◌==◌, contains,
  has_duplicate, map, All, String,
}
use nudging_tool.Text.{lower, strip, is_email}
use nudging_tool.Json.{str, arr, obj, nil, cons, end, field, get}
use nudging_tool.Db.{UserPreference}
use nudging_tool.Session.{Session, for_each, modify, commit, violation, ◌>>=◌}
use nudging_tool.Env.{utc_now}
use nudging_tool.Delivery.{web, DeliveryJob}
use nudging_tool.Orchestrator.Kinds.{kinds, required_kinds, enabled_kinds}
use nudging_tool.Orchestrator.Kinds.Laws.{enabled_kinds-required}
use nudging_tool.Orchestrator.Recipients.{recipients_from}
use nudging_tool.Orchestrator.Recipients.Laws.{IsFresh, recipients_from-IsFresh}
use nudging_tool.Session.{ok}
use nudging_tool.Db.{NudgeLog}
use nudging_tool.Delivery.{email, PublishResult}
use nudging_tool.Prelude.{if◌then◌else◌, ◌+◌}
use nudging_tool.Orchestrator.Recipients.{explicit_email_recipients}
use nudging_tool.Publishers.{publish}
use nudging_tool.Orchestrator.Limit.Laws.{is_counted, publish-sent_count}
use nudging_tool.Orchestrator.Jobs.{is_email_only_ingest, job_targets, build_delivery_jobs}
use nudging_tool.Orchestrator.Jobs.Laws.{
  target, wanted_targets, Carries, SameRows, build_delivery_jobs-Carries,
}
use nudging_tool.Text.{is_space}
use nudging_tool.Session.{traverse}
use nudging_tool.Env.{uuid4, ActiveKind}
use nudging_tool.Engine.Resolve.{preferences_of}
use nudging_tool.Orchestrator.Kinds.{get_user_pref, rule_kind}
use nudging_tool.Orchestrator.Limit.{sent_count}
use nudging_tool.Orchestrator.Run.{orchestrate}
use nudging_tool.Orchestrator.Run.Nudge.{orchestrate-Suppressed}
use nudging_tool.Orchestrator.Run.{decide, final_status}
use nudging_tool.Orchestrator.Run.Laws.{Suppressed, Has, decide-Suppressed, final_status_iff}
use nudging_tool.Samples.{env, db, start, notification, active, preference, job}

abbrev with_notification : Session
with_notification = start (record db { notifications = notification ∷ [] })

decide-Suppressed_example :
    (◌≡◌ {A = List DeliveryJob} [] [])
    × Suppressed "rate_limited" "n1"
        (job ∷ [])
        with_notification
        (decide env notification false false (job ∷ []) with_notification).1
unfolding decide for_each modify commit violation ◌>>=◌ utc_now
decide-Suppressed_example =
    decide-Suppressed env notification (job ∷ []) with_notification false false refl [] refl

-- A user who wants none of the kinds.
abbrev quiet : UserPreference
quiet = record preference { consents = obj (field "enabled_notification_kinds" (arr nil) end) }

enabled_kinds_run : enabled_kinds (some quiet) active ≡ "outage" ∷ []
unfolding enabled_kinds get
enabled_kinds_run = refl

enabled_kinds-required_example :
    (contains "outage" (required_kinds active) ≡ true
      → contains "outage" (enabled_kinds (some quiet) active) ≡ true)
    × (contains "outage" (enabled_kinds (some quiet) active) ≡ true
        → contains "outage" (kinds active) ≡ true)
enabled_kinds-required_example = enabled_kinds-required (some quiet) active "outage"

recipients_run :
    recipients_from env.lower_other []
      (cons (str " A@b.it ") (cons (str "a@B.it") (cons (str "none") (cons (str "c@d.it") nil))))
    ≡ "A@b.it" ∷ "c@d.it" ∷ []
unfolding recipients_from strip lower is_email
recipients_run = refl

recipients_from-IsFresh_example :
    All
      (IsFresh env.lower_other [])
      (recipients_from env.lower_other [] (cons (str " A@b.it ") (cons (str "a@B.it") nil)))
    × (has_duplicate (
          map
            (lower env.lower_other)
            (recipients_from env.lower_other [] (cons (str " A@b.it ") (cons (str "a@B.it") nil))))
        ≡ false)
recipients_from-IsFresh_example =
    recipients_from-IsFresh env.lower_other [] (cons (str " A@b.it ") (cons (str "a@B.it") nil))

final_status_iff_example :
    ((final_status [] ≡ "sent") ↔ Has "sent" [])
    × ((final_status [] ≡ "suppressed")
        ↔ ((is_nil {A = String} [] ≡ false) × (all (λ status. status == "suppressed") [] ≡ true)))
    × ((final_status [] ≡ "sent") ⊎ (final_status [] ≡ "suppressed") ⊎ (final_status [] ≡ "failed"))
final_status_iff_example = final_status_iff []

-- All that an orchestration computes with.
unfoldable pub everything : Unit {0}
unfolding orchestrate decide build_delivery_jobs job_targets explicit_email_recipients
    is_email_only_ingest enabled_kinds get_user_pref rule_kind sent_count get strip lower is_email
    for_each traverse modify commit violation ◌>>=◌ utc_now uuid4 preferences_of is_space
everything = tt

-- The answer to a push of `u10`, whose destination the prefix of `u1` finds too.
abbrev answer : PublishResult
answer = record { status = "failed"; sent_at = none; error = some "no_subscriptions" }

abbrev to_u10 : DeliveryJob
to_u10 = record job { user_id = "u10"; destination = "web:u10" }

publish-sent_count_example :
    sent_count env "web:u1" 20458 (publish env web to_u10 (start db)).1.committed
    ≡ (if is_counted env "web:u1" 20458 to_u10 answer then 1 else 0)
      + sent_count env "web:u1" 20458 (start db).working
unfolding everything publish nudging_tool.Publishers.Web.send_webpush
publish-sent_count_example = publish-sent_count env "web:u1" 20458 web to_u10 (start db) answer refl

-- A push that was sent to `u10` counts for `u1`.
counted :
    is_counted env "web:u1" 20458 to_u10
      (record { status = "sent"; sent_at = some 5; error = none })
    ≡ true
counted = refl

abbrev nudge : NudgeLog
nudge = record {
  id = "l1";
  rule_id = "welcome";
  user_id = "u1";
  community_id = some "c1";
  dedup_key = "welcome:u1:c1:2026-01-05";
  status = "created";
  payload = field "facts" (obj (field "email_recipients" (arr (cons (str "a@b.it") nil)) end)) end;
  created_at = 1000;
}

build_delivery_jobs-Carries_example :
    (jobs : List DeliveryJob) × ((build_delivery_jobs env nudge notification none (start db)).0
      ≡ ok jobs)
    × (map target jobs
        ≡ wanted_targets (explicit_email_recipients env.lower_other nudge.payload) nudge none)
    × All (Carries nudge notification) jobs
    × SameRows (start db) (build_delivery_jobs env nudge notification none (start db)).1
build_delivery_jobs-Carries_example =
    build_delivery_jobs-Carries env nudge notification none (start db)

targets_run : job_targets env nudge notification none ≡ (web, "web:u1:c1") ∷ (email, "a@b.it") ∷ []
unfolding job_targets explicit_email_recipients is_email_only_ingest get strip lower is_email
targets_run = refl

-- The user of the nudge has switched its kind off.
abbrev told : Session
told =
    start (record db {
      nudges = nudge ∷ [];
      notifications = notification ∷ [];
      preferences = quiet ∷ [];
    })

abbrev only_welcome : List ActiveKind
only_welcome =
    record { kind = "welcome"; label = []; description = []; cadence = []; editable = true } ∷ []

orchestrate-Suppressed_example :
    (◌≡◌ {A = List DeliveryJob} [] [])
    × ((orchestrate env "l1" told).1.calls ≡ 0)
    × ((orchestrate env "l1" told).1.committed.notifications
        ≡ record notification { status = "suppressed" } ∷ [])
    × ((orchestrate env "l1" told).1.working ≡ (orchestrate env "l1" told).1.committed)
unfolding everything
orchestrate-Suppressed_example =
    orchestrate-Suppressed env "l1" told nudge notification only_welcome refl refl refl refl [] refl
