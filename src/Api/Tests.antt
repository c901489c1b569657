-- ===== src/Api/Tests.antt =====
-- Requests of one user.
use nudging_tool.Prelude.{
  false, ◌≡◌, refl, ◌≤◌, true, ◌&&◌, ◌||◌, none, some, List, [], ◌∷◌, length, All, contains,
}
use nudging_tool.Json.{end}
use nudging_tool.Text.{strip}
use nudging_tool.Db.{Notification, Db}
use nudging_tool.Session.{ok, err, multiple_results_found, commit, violation, modify, ◌>>=◌}
use nudging_tool.Env.{utc_now}
use nudging_tool.Engine.{EngineResult, not_triggered, missing_facts}
use nudging_tool.Orchestrator.Kinds.{kinds, required_kinds, enabled_kinds}
use nudging_tool.Api.User.{JwtUser, owned_user_ids}
use nudging_tool.Api.Notifications.{list_notifications, read_row, delete_row, click_row}
use nudging_tool.Api.Notifications.Laws.{
  Visible, list_notifications-Visible, read_row_idem, delete_row_idem, click_row_first,
}
use nudging_tool.Api.Ingest.{respond_without_nudge}
use nudging_tool.Api.Ingest.Laws.{code_of, CodeFor, respond_without_nudge-CodeFor}
use nudging_tool.Api.Preferences.{UserPreferenceUpdateIn, updated_preference}
use nudging_tool.Api.Preferences.Laws.{updated_preference-enabled}
use nudging_tool.Api.Subscriptions.{SubscribeRequest, subscribe, unsubscribe}
use nudging_tool.Api.Subscriptions.Laws.{unsubscribe-subscribe}
use nudging_tool.Samples.{env, db, start, notification, active, preference}

abbrev user : JwtUser
user = record {
  sub = "u1";
  preferred_username = some "ada";
  is_service_account = false;
  claims = end;
}

abbrev world : Db
world = record db {
  notifications =
      record notification { id = "n3"; user_id = "ada"; nudge_log_id = "l3"; created_at = 3000 }
      ∷ record notification { id = "n2"; user_id = "eve"; nudge_log_id = "l2" }
      ∷ notification
      ∷ [];
}

list_notifications-Visible_example :
    (length (list_notifications user 2 0 true world) ≤ 2)
    × All (Visible user true) (list_notifications user 2 0 true world)
list_notifications-Visible_example = list_notifications-Visible user 2 0 true world

read_row_idem_example :
    read_row env (record notification { read_at = some 1000 }) (start world)
    ≡ (ok (record notification { read_at = some 1000 }), start world)
unfolding read_row ◌>>=◌ modify commit violation utc_now
read_row_idem_example =
    read_row_idem env notification (start world) (record notification { read_at = some 1000 }) refl
      (start world)

delete_row_idem_example :
    delete_row env (record notification { deleted_at = some 1000 }) (start world)
    ≡ (ok (record notification { deleted_at = some 1000 }), start world)
unfolding delete_row ◌>>=◌ modify commit violation utc_now
delete_row_idem_example =
    delete_row_idem env notification (start world) (record notification { deleted_at = some 1000 })
      refl (start world)

abbrev clicked : Notification
clicked = record notification { clicked_at = some 1000; click_action = some "open" }

click_row_first_example :
    click_row env (some "dismiss") clicked (start world) ≡ (ok clicked, start world)
unfolding click_row ◌>>=◌ modify commit violation utc_now strip
click_row_first_example =
    click_row_first env notification (start world) (some "open") (some "dismiss") clicked refl
      (start world)

abbrev results : List EngineResult
results =
    record { status = not_triggered; nudge = none; reason = none; details = none }
    ∷ record { status = missing_facts; nudge = none; reason = none; details = none }
    ∷ []

respond_without_nudge-CodeFor_example :
    CodeFor results (code_of (respond_without_nudge results (start world)).0)
respond_without_nudge-CodeFor_example = respond_without_nudge-CodeFor results (start world)

abbrev update : UserPreferenceUpdateIn
update = record {
  max_per_day = 5;
  channel_email = none;
  email = none;
  enabled_notification_kinds = some ("welcome" ∷ "unknown" ∷ []);
}

updated_preference-enabled_example :
    contains "outage" (enabled_kinds (some (updated_preference update active preference)) active)
    ≡ ((contains "outage" ("welcome" ∷ "unknown" ∷ []) && contains "outage" (kinds active))
        || contains "outage" (required_kinds active))
updated_preference-enabled_example =
    updated_preference-enabled update ("welcome" ∷ "unknown" ∷ []) active preference refl "outage"

abbrev request : SubscribeRequest
request = record { endpoint = "https://push/1"; p256dh = "key"; auth = "auth"; community_id = none }

unsubscribe-subscribe_example :
    (unsubscribe "https://push/1" none user (subscribe env request user (start db)).1).0
    ≡ err multiple_results_found
unfolding owned_user_ids
unsubscribe-subscribe_example =
    unsubscribe-subscribe env request user (start db) "u1" "ada" refl refl
