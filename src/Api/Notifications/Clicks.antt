-- ===== src/Api/Notifications/Clicks.antt =====
-- From the token in a push to the click on its notification.
use nudging_tool.Prelude.{String, ◌≡◌, refl, false, Option, none, some, is_empty}
use nudging_tool.Text.{strip}
use nudging_tool.Json.{str, obj, end, field}
use nudging_tool.Tracking.{payload_of, sign_token, check_parts, split_dot, unsign_token}
use nudging_tool.Tracking.Laws.{Documented, unsign_token-sign_token}
use nudging_tool.Session.{Session, ok, pure, lift, except_value_error, ◌>>=◌}
use nudging_tool.Session.Bind.{bind-ok}
use nudging_tool.Env.{Env}
use nudging_tool.Publishers.Web.{tracking_secret, click_token}
use nudging_tool.Api.Notifications.{click_by_id, unsign_parts, unsign_click, track_click}

module _ (env : Env) (set : is_empty (strip env.settings.click_tracking_secret) ≡ false) where
  unsign_click_ok :
      (token id : String) (u : Session)
      → unsign_token env.codec (strip env.settings.click_tracking_secret) token ≡ ok id
      → unsign_click env token u ≡ (ok id, u)
  unfolding unsign_click unsign_token tracking_secret ◌>>=◌ pure lift
  unsign_click_ok token id u h = go (split_dot token) h
    where
      go :
          (parts : Option (String × String))
          → check_parts env.codec (strip env.settings.click_tracking_secret) parts ≡ ok id
          → unsign_parts env token parts u ≡ (ok id, u)
      go none e = cc
      go (some parts) e = rw (set, h) refl

  click_token_ok :
      (id : String) (s : Session)
      → is_empty id ≡ false
      → click_token env (some id) s
        ≡ (ok (some (sign_token env.codec (strip env.settings.click_tracking_secret) id)), s)
  unfolding click_token ◌>>=◌ pure
  click_token_ok id s filled = rw (filled, set) refl

-- The token that a push carries for a notification, presented to `track_click`, in whatever session,
-- makes it handle the click of that notification. CLICK_TRACKING_SECRET is set; base64 treats the
-- payload and the signature as its documentation says, and JSON reads back what it wrote.
pub track_click-click_token :
    (env : Env) (id : String) (action : Option String) (s u : Session)
    → is_empty id ≡ false
    → is_empty (strip env.settings.click_tracking_secret) ≡ false
    → Documented env.codec (env.codec.json_dumps (field "notification_id" (str id) end))
    → Documented env.codec
        (env.codec.hmac_sha256 (strip env.settings.click_tracking_secret) (payload_of env.codec id))
    → env.codec.json_loads (env.codec.json_dumps (field "notification_id" (str id) end))
      ≡ ok (obj (field "notification_id" (str id) end))
    → (token : String) × (click_token env (some id) s ≡ (ok (some token), s))
      × (track_click env token action u ≡ click_by_id env id action u)
unfolding track_click except_value_error lift
track_click-click_token env id action s u filled set written signed loads =
    let secret = strip env.settings.click_tracking_secret in
    let token = sign_token env.codec secret id in
    let unsigned = unsign_token-sign_token env.codec secret id filled written signed loads in
    (
      token,
      click_token_ok env set id s filled,
      bind-ok (except_value_error (unsign_click env token) _) _ u id u
          (rw (unsign_click_ok env set token id u unsigned) refl),
    )
