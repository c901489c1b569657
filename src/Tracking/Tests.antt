-- ===== src/Tracking/Tests.antt =====
-- A token for one notification, with stand-ins for the packages.
use nudging_tool.Prelude.{◌<>◌, ◌≡◌, refl}
use nudging_tool.Json.{str, obj, end, field, get, text_of}
use nudging_tool.Session.{ok}
use nudging_tool.Tracking.{
  Codec, rstrip_equals, size, padding, urlsafe_b64encode, sign_token, unsign_token,
}
use nudging_tool.Tracking.Laws.{Documented, unsign_token-sign_token}

abbrev pub codec : Codec
codec = record {
  b64encode = λ raw. raw <> padding (size raw);
  b64decode = λ value. ok (rstrip_equals value);
  hmac_sha256 = λ secret message. secret <> message;
  json_dumps = λ d. text_of (λ _. "null") (get "notification_id" d);
  json_loads = λ raw. ok (obj (field "notification_id" (str raw) end));
}

pub payload-Documented : Documented codec "n1"
unfolding rstrip_equals padding
payload-Documented = record {
  decodes = refl;
  body = "n1";
  filled = refl;
  no_fill = refl;
  no_dot = refl;
}

pub signature-Documented : Documented codec "secretn1"
unfolding rstrip_equals padding
signature-Documented = record {
  decodes = refl;
  body = "secretn1";
  filled = refl;
  no_fill = refl;
  no_dot = refl;
}

unsign_token-sign_token_example :
    unsign_token codec "secret" (sign_token codec "secret" "n1") ≡ ok "n1"
unfolding get urlsafe_b64encode rstrip_equals padding
unsign_token-sign_token_example =
    unsign_token-sign_token codec "secret" "n1" refl payload-Documented signature-Documented refl
