-- ===== src/Security/Policies.antt =====
-- security/policies.py: the input of the policy engine, what it answers, and the dependencies
-- `get_current_user`, `require_admin` and `require_ingest`.
use nudging_tool.Prelude.{
  Char, String, ◌<>◌, Bool, true, false, Option, none, some, List, [], ◌∷◌, map, if◌then◌else◌,
}
use nudging_tool.Text.{is_space}
use nudging_tool.Json.{Json, Items, Dict, nil, cons, bool, str, arr, obj, end, field, get, text_of}
use nudging_tool.Session.{
  Result, err, value_error, runtime_error, http_error, Exec, pure, raise, lift, ◌>>=◌,
}
use nudging_tool.Api.User.{JwtUser}

pub data SubjectType : Type 0 where
  service user : SubjectType

pub record Subject : Type 0 where
  pub id : String
  pub type : SubjectType
  pub groups : List String
  pub scopes : List Json
  pub claims : Dict

-- The resource is always the user data of the tool.
pub record PolicyInput : Type 0 where
  pub subject : Subject
  pub resource_id : String
  pub action : String

-- What the code calls of a policy engine.
pub record PolicyEngine : Type 0 where
  pub build_input : PolicyInput → Json
  pub evaluate : String → Json → Result Json

-- `init_policy_engine`: what is kept in `_engine`.
unfoldable pub init_policy_engine :
    (String → Bool) → (String → Result PolicyEngine) → Option String → Result PolicyEngine
init_policy_engine exists load none = err (value_error "POLICIES_DIR not set")
init_policy_engine exists load (some dir) =
    if exists dir then load dir else err (value_error "POLICIES_DIR does not exists")

unfoldable pub get_policy_engine : Option PolicyEngine → Exec PolicyEngine
get_policy_engine none = raise (runtime_error "Policy engine not initialised")
get_policy_engine (some engine) = pure engine

-- A word ends where `rest` begins with a space or is over.
abbrev push_char : Char → Bool → List String → List String
push_char c true words = String.◌∷◌ c "" ∷ words
push_char c false [] = String.◌∷◌ c "" ∷ []
push_char c false (w ∷ words) = String.◌∷◌ c w ∷ words

abbrev starts_apart : String → Bool
starts_apart String.[] = true
starts_apart (String.◌∷◌ c s) = is_space c

-- `text.split()`
unfoldable pub split : String → List String
split String.[] = []
split (String.◌∷◌ c s) =
    let rest = split s in if is_space c then rest else push_char c (starts_apart s) rest

unfoldable pub items_of : Items → List Json
items_of nil = []
items_of (cons x xs) = x ∷ items_of xs

abbrev scopes_of : Json → List Json
scopes_of (str s) = map str (split s)
scopes_of (arr xs) = items_of xs
scopes_of _ = []

-- `_scopes_from_user`
unfoldable pub scopes_from_user : JwtUser → List Json
unfolding split items_of
scopes_from_user caller = scopes_of (get "scope" caller.claims)

abbrev groups_of : (Json → String) → Json → List String
groups_of repr (arr xs) = map (text_of repr) (items_of xs)
groups_of repr _ = []

-- `_groups_from_user`, where `repr` stands for `str` of values that are no texts.
unfoldable pub groups_from_user : (Json → String) → JwtUser → List String
unfolding items_of
groups_from_user repr caller = groups_of repr (get "groups" caller.claims)

-- `_subject_from_user`
unfoldable pub subject_from_user : (Json → String) → JwtUser → Subject
unfolding scopes_from_user groups_from_user
subject_from_user repr caller = record {
  id = caller.sub;
  type = if caller.is_service_account then service else SubjectType.user;
  groups = groups_from_user repr caller;
  scopes = scopes_from_user caller;
  claims = caller.claims;
}

-- `_make_policy_input`
unfoldable pub make_policy_input : (Json → String) → JwtUser → String → PolicyInput
unfolding subject_from_user
make_policy_input repr caller action = record {
  subject = subject_from_user repr caller;
  resource_id = "nudging";
  action = action;
}

-- The first of a list, if it is an object; every other shape raises, which is caught.
abbrev pub first_object : Json → Option Dict
first_object (arr (cons (obj d) xs)) = some d
first_object _ = none

abbrev pub bool_or_false : Json → Bool
bool_or_false (bool b) = b
bool_or_false _ = false

abbrev pub value_of : Option Dict → Bool
value_of none = false
value_of (some expression) = bool_or_false (get "value" expression)

abbrev pub expressions_of : Option Dict → Bool
expressions_of none = false
expressions_of (some result) = value_of (first_object (get "expressions" result))

-- `_extract_bool` with the default `False`.
unfoldable pub extract_bool : Json → Bool
extract_bool (obj d) = expressions_of (first_object (get "result" d))
extract_bool _ = false

abbrev pub detail : String → Dict
detail text = field "detail" (str text) end

unfoldable pub get_current_user : Option JwtUser → Exec JwtUser
get_current_user none = raise (http_error 401 (detail "Not authenticated"))
get_current_user (some caller) = pure caller

module _ (repr : Json → String) (engine : Option PolicyEngine) (attached : Option JwtUser) where
  -- What `require_admin` and `require_ingest` share: the action, the rule of the policy and the
  -- refusal differ.
  unfoldable pub require : (action rule refusal : String) → Exec JwtUser
  unfolding get_current_user get_policy_engine make_policy_input
  require action rule refusal = do
    caller ← get_current_user attached
    policies ← get_policy_engine engine
    raw ← lift (
        policies.evaluate ("data.celine.nudging.authz." <> rule)
          (policies.build_input (make_policy_input repr caller action)))
    if extract_bool raw then pure caller else raise (http_error 403 (detail refusal))

  unfoldable pub require_admin : Exec JwtUser
  unfolding require
  require_admin =
      require "admin" "is_admin"
        "Insufficient permissions: nudging.admin scope or admin group required"

  unfoldable pub require_ingest : Exec JwtUser
  unfolding require
  require_ingest =
      require "ingest" "is_ingest" "Insufficient permissions: nudging.ingest scope required"
