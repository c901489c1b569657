-- ===== src/Security/Tests.antt =====
-- Access control at concrete requests.
use nudging_tool.Prelude.{
  String, ◌≡◌, refl, true, false, none, some, List, [], ◌∷◌, ◌==◌, if◌then◌else◌,
}
use nudging_tool.Text.{is_space}
use nudging_tool.Json.{Json, bool, str, arr, obj, nil, cons, end, field, get}
use nudging_tool.Db.{Rule}
use nudging_tool.Session.{value_error, Result, ok, err, Exec, query, ◌>>=◌}
use nudging_tool.Samples.{db, start}
use nudging_tool.Api.User.{JwtUser}
use nudging_tool.Security.Policies.{PolicyEngine, scopes_from_user, extract_bool, require_admin}
use nudging_tool.Security.Auth.{Request, is_open, dispatch, admin_route}
use nudging_tool.Security.Laws.{Served, admin_route-Served}

abbrev ada : JwtUser
ada = record {
  sub = "u1";
  preferred_username = some "ada";
  is_service_account = false;
  claims = field "scope" (str "nudging.read  nudging.admin") end;
}

abbrev answer : Json → Json
answer v = obj (
    field "result"
      (arr (cons (obj (field "expressions" (arr (cons (obj (field "value" v end)) nil)) end)) nil))
      end)

abbrev engine : PolicyEngine
engine = record {
  build_input = λ input. str input.action;
  evaluate = λ rule input. ok (answer (bool (rule == "data.celine.nudging.authz.is_admin")));
}

abbrev from_token : String → Result JwtUser
from_token header = if header == "Bearer t" then ok ada else err (value_error "bad token")

abbrev handler : JwtUser → Exec (List Rule)
handler caller = query (λ db. db.rules)

abbrev request : Request
request = record { path = "/admin/seed/apply"; authorization = "Bearer t"; user = none }

scopes : scopes_from_user ada ≡ str "nudging.read" ∷ str "nudging.admin" ∷ []
unfolding scopes_from_user get is_space
scopes = refl

-- A value that is no Boolean counts as a refusal.
no_boolean : extract_bool (answer (str "true")) ≡ false
unfolding extract_bool get
no_boolean = refl

opened : is_open "/static/app.js" ≡ true
unfolding is_open
opened = refl

closed : is_open "/notifications" ≡ false
unfolding is_open
closed = refl

-- The handler runs for the caller of the token.
admits :
    dispatch from_token (admin_route (λ _. "") (some engine) handler) request (start db)
    ≡ handler ada (start db)
unfolding dispatch admin_route require_admin is_open extract_bool get ◌>>=◌
admits = refl

admin_route-Served_example :
    Served
      (λ _. "")
      (some engine)
      handler
      (start db)
      from_token
      request
      "admin"
      "data.celine.nudging.authz.is_admin"
      (dispatch from_token (admin_route (λ _. "") (some engine) handler) request)
admin_route-Served_example =
    admin_route-Served (λ _. "") (some engine) handler (start db) from_token request refl
