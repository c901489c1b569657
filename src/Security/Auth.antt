-- ===== src/Security/Auth.antt =====
-- security/auth.py: the paths that need no token, and `AuthMiddleware.dispatch`.
use nudging_tool.Prelude.{
  String, Bool, true, false, ◌&&◌, ◌||◌, Option, some, List, [], ◌∷◌, eqb, code, contains, is_empty,
  if◌then◌else◌,
}
use nudging_tool.Json.{Json, str, end, field}
use nudging_tool.Session.{Result, ok, err, http_error, Exec, raise, ◌>>=◌}
use nudging_tool.Api.User.{JwtUser}
use nudging_tool.Security.Policies.{PolicyEngine, require_admin, require_ingest}

-- A request as the middleware reads it: `authorization` is the header, empty if it is missing, and
-- `user` is `request.state.user`.
pub record Request : Type 0 where
  pub path : String
  pub authorization : String
  pub user : Option JwtUser

abbrev pub open_paths : List String
open_paths =
    "/health" ∷ "/docs" ∷ "/redoc" ∷ "/openapi.json" ∷ "/favicon.ico" ∷ "/notifications/track-click"
    ∷ []

-- `text.startswith(prefix)`
unfoldable pub starts_with : (prefix text : String) → Bool
starts_with String.[] text = true
starts_with (String.◌∷◌ p ps) String.[] = false
starts_with (String.◌∷◌ p ps) (String.◌∷◌ c cs) = eqb (code p) (code c) && starts_with ps cs

-- `_is_open`
unfoldable pub is_open : String → Bool
unfolding starts_with
is_open path = contains path open_paths || starts_with "/static/" path

abbrev pub refuse : {A : Type 0} → String → Exec A
refuse text = raise (http_error 401 (field "detail" (str text) end))

module _ {A : Type 0} (from_token : String → Result JwtUser) (call_next : Request → Exec A) where
  abbrev call_as : Request → Result JwtUser → Exec A
  call_as request (ok user) = call_next (record request { user = some user })
  call_as request (err e) = refuse "Invalid or expired token"

  -- `AuthMiddleware.dispatch`
  unfoldable pub dispatch : Request → Exec A
  dispatch request =
      if is_open request.path
      then call_next request
      else if is_empty request.authorization
      then refuse "Missing Authorization header"
      else call_as request (from_token request.authorization)

module _ {A : Type 0} (repr : Json → String) (engine : Option PolicyEngine) where
  -- A route with `Depends(require_admin)`.
  unfoldable pub admin_route : (JwtUser → Exec A) → Request → Exec A
  admin_route handler request = require_admin repr engine request.user >>= handler

  -- A route with `Depends(require_ingest)`.
  unfoldable pub ingest_route : (JwtUser → Exec A) → Request → Exec A
  ingest_route handler request = require_ingest repr engine request.user >>= handler
