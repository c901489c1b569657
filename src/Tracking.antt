-- ===== src/Tracking.antt =====
-- notifications_tracking.py: the signed token by which a service worker reports a click. base64,
-- HMAC and JSON are parameters; bytes stand here as texts of one character for each byte.
pub mod Laws
pub mod Tests
use nudging_tool.Prelude.{
  ℕ, zero, suc, ◌%◌, Char, code, String, ◌<>◌, Bool, true, false, ◌&&◌, Option, none, some, ◌==◌,
  eqb, is_empty, if◌then◌else◌,
}
use nudging_tool.Json.{Json, Dict, str, obj, end, field, get}
use nudging_tool.Session.{Result, ok, err, value_error, type_error}

pub record Codec : Type 0 where
  pub b64encode : String → String
  pub b64decode : String → Result String
  pub hmac_sha256 : (secret message : String) → String
  pub json_dumps : Dict → String
  pub json_loads : String → Result Json

-- `.rstrip("=")`
unfoldable pub rstrip_equals : String → String
rstrip_equals String.[] = ""
rstrip_equals (String.◌∷◌ c s) =
    let rest = rstrip_equals s in
    if is_empty rest && eqb (code c) b'=' then "" else String.◌∷◌ c rest

abbrev pub size : String → ℕ
size String.[] = 0
size (String.◌∷◌ c s) = suc (size s)

-- `"=" * (-n % 4)`
unfoldable pub padding : ℕ → String
padding n =
    if eqb (n % 4) 0
    then ""
    else if eqb (n % 4) 1
    then "==="
    else if eqb (n % 4) 2
    then "=="
    else "="

-- `token.split(".", 1)`
unfoldable pub split_dot : String → Option (String × String)
split_dot String.[] = none
split_dot (String.◌∷◌ c s) =
    let rest = split_dot s in
    if eqb (code c) b'.'
    then some ("", s)
    else elim rest [ none ↦ none | some parts ↦ some (String.◌∷◌ c parts.0, parts.1) ]

module _ (codec : Codec) where
  unfoldable pub urlsafe_b64encode : String → String
  unfolding rstrip_equals
  urlsafe_b64encode raw = rstrip_equals (codec.b64encode raw)

  unfoldable pub urlsafe_b64decode : String → Result String
  unfolding padding
  urlsafe_b64decode value = codec.b64decode (value <> padding (size value))

  abbrev pub payload_of : String → String
  payload_of notification_id =
      urlsafe_b64encode (codec.json_dumps (field "notification_id" (str notification_id) end))

  -- `sign_click_tracking_token`, under a secret.
  unfoldable pub sign_token : (secret notification_id : String) → String
  unfolding urlsafe_b64encode
  sign_token secret notification_id =
      payload_of notification_id
      <> ("." <> urlsafe_b64encode (codec.hmac_sha256 secret (payload_of notification_id)))

  abbrev pub id_of : Json → Result String
  id_of (str s) = if is_empty s then err (value_error "invalid tracking token payload") else ok s
  id_of _ = err (value_error "invalid tracking token payload")

  abbrev pub id_of_payload : Json → Result String
  id_of_payload (obj payload) = id_of (get "notification_id" payload)
  id_of_payload _ = err (type_error "the payload has no attribute 'get'")

  abbrev and_then : {A B : Type 0} → Result A → (A → Result B) → Result B
  and_then (ok a) f = f a
  and_then (err e) f = err e

  abbrev check_signature : String → String → String → Result String
  check_signature expected actual payload =
      if expected == actual
      then and_then (urlsafe_b64decode payload)
          (λ raw. and_then (codec.json_loads raw) id_of_payload)
      else err (value_error "invalid tracking token signature")

  abbrev pub check_parts : String → Option (String × String) → Result String
  check_parts secret none = err (value_error "invalid tracking token format")
  check_parts secret (some (payload, signature)) =
      and_then (urlsafe_b64decode signature)
        (λ actual. check_signature (codec.hmac_sha256 secret payload) actual payload)

  -- `unsign_click_tracking_token`, under a secret.
  unfoldable pub unsign_token : (secret token : String) → Result String
  unfolding split_dot urlsafe_b64decode
  unsign_token secret token = check_parts secret (split_dot token)
