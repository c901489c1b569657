-- ===== src/Api/Notifications/Tests.antt =====
-- A click on a push.
use nudging_tool.Prelude.{String, ◌≡◌, refl, none, some}
use nudging_tool.Text.{strip, is_space}
use nudging_tool.Json.{get}
use nudging_tool.Tracking.Tests.{codec, payload-Documented, signature-Documented}
use nudging_tool.Tracking.{urlsafe_b64encode, rstrip_equals, padding}
use nudging_tool.Session.{ok}
use nudging_tool.Env.{Env}
use nudging_tool.Publishers.Web.{click_token}
use nudging_tool.Samples.{db, env, start}
use nudging_tool.Api.Notifications.{click_by_id, track_click}
use nudging_tool.Api.Notifications.Clicks.{track_click-click_token}

abbrev signing : Env
signing = record env { codec = codec }

track_click-click_token_example :
    (token : String) × (click_token signing (some "n1") (start db) ≡ (ok (some token), start db))
    × (track_click signing token none (start db) ≡ click_by_id signing "n1" none (start db))
unfolding get urlsafe_b64encode rstrip_equals padding strip is_space
track_click-click_token_example =
    track_click-click_token signing "n1" none (start db) (start db) refl refl payload-Documented
      signature-Documented refl
