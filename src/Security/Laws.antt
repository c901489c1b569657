-- ===== src/Security/Laws.antt =====
-- When a handler behind the middleware and a policy runs.
use nudging_tool.Prelude.{
  String, ◌<>◌, ◌≡◌, refl, ◌⊎◌, inl, inr, true, false, Option, none, some, is_empty, Bool-cases,
  Option-cases,
}
use nudging_tool.Json.{Json}
use nudging_tool.Session.{
  Error, runtime_error, http_error, Session, Result, ok, err, Exec, pure, raise, lift, ◌>>=◌,
}
use nudging_tool.Api.User.{JwtUser}
use nudging_tool.Security.Policies.{
  PolicyEngine, detail, get_current_user, get_policy_engine, make_policy_input, extract_bool,
  require, require_admin, require_ingest,
}
use nudging_tool.Security.Auth.{Request, is_open, dispatch, admin_route, ingest_route}

-- The policy engine is there and answers `true` to a rule for the caller.
abbrev pub IsGranted :
    (Json → String) → Option PolicyEngine → JwtUser → (action rule : String) → Type 0
IsGranted repr engine caller action rule =
    (policies : PolicyEngine) × (raw : Json) × (engine ≡ some policies)
    × (policies.evaluate rule (policies.build_input (make_policy_input repr caller action))
        ≡ ok raw)
    × (extract_bool raw ≡ true)

module _ {A : Type 0} (repr : Json → String) (engine : Option PolicyEngine)
    (handler : JwtUser → Exec A) (s : Session) where
  -- The route runs its handler for a caller that the policy grants, or raises and does nothing.
  abbrev Guarded : Option JwtUser → String → String → Exec A → Type 0
  Guarded attached action rule route =
      ((e : Error) × (route s ≡ (err e, s)))
      ⊎ ((caller : JwtUser) × (attached ≡ some caller)
          × IsGranted repr engine caller action rule
          × (route s ≡ handler caller s))

  -- The same for a request: the path needs a token, and the token is the caller's.
  abbrev pub Served : (String → Result JwtUser) → Request → (action rule : String) → Exec A → Type 0
  Served from_token request action rule serve =
      ((e : Error) × (serve s ≡ (err e, s)))
      ⊎ ((caller : JwtUser) × (is_open request.path ≡ false)
          × (from_token request.authorization ≡ ok caller)
          × IsGranted repr engine caller action rule
          × (serve s ≡ handler caller s))

  require-Guarded :
      (attached : Option JwtUser) (action rule refusal : String)
      → Guarded attached action
          ("data.celine.nudging.authz." <> rule)
          (require repr engine attached action rule refusal >>= handler)
  unfolding require get_current_user get_policy_engine ◌>>=◌ pure raise lift
  require-Guarded none action rule refusal = inl (_, refl)
  require-Guarded (some caller) action rule refusal = elim (Option-cases engine) [
    | inl e ↦ inl (runtime_error "Policy engine not initialised", rw e refl)
    | inr (policies, e) ↦ go policies e _ refl
  ]
    where
      go :
          (policies : PolicyEngine)
          → engine ≡ some policies
          → (r : Result Json)
          → policies.evaluate
              ("data.celine.nudging.authz." <> rule)
              (policies.build_input (make_policy_input repr caller action))
            ≡ r
          → Guarded
              (some caller)
              action
              ("data.celine.nudging.authz." <> rule)
              (require repr engine (some caller) action rule refusal >>= handler)
      go policies e (err x) h = inl (x, rw (e, h) refl)
      go policies e (ok raw) h = elim (Bool-cases (extract_bool raw)) [
        | inl yes_ ↦ inr (caller, refl, (policies, raw, e, h, yes_), rw (e, h, yes_) refl)
        | inr no_ ↦ inl (http_error 403 (detail refusal), rw (e, h, no_) refl)
      ]

  -- A request that has passed the middleware runs the handler for the token's caller, or nothing.
  served :
      (from_token : String → Result JwtUser) (action rule refusal : String) (request : Request)
      → request.user ≡ none
      → Served from_token request action ("data.celine.nudging.authz." <> rule) (
          dispatch from_token
            (λ (r : Request). require repr engine r.user action rule refusal >>= handler)
            request)
  unfolding dispatch require get_current_user ◌>>=◌ raise
  served from_token action rule refusal request fresh = elim (Bool-cases (is_open request.path)) [
    | inl opened ↦ inl (http_error 401 (detail "Not authenticated"), rw (opened, fresh) refl)
    | inr closed ↦ elim (Bool-cases (is_empty request.authorization)) [
      | inl missing ↦
          inl (http_error 401 (detail "Missing Authorization header"), rw (closed, missing) refl)
      | inr there ↦ go closed there (from_token request.authorization) refl
    ]
  ]
    where
      go :
          is_open request.path ≡ false
          → is_empty request.authorization ≡ false
          → (r : Result JwtUser) → from_token request.authorization ≡ r
          → Served from_token request action ("data.celine.nudging.authz." <> rule) (
              dispatch from_token
                (λ (r : Request). require repr engine r.user action rule refusal >>= handler)
                request)
      go closed there (err x) h =
          inl (http_error 401 (detail "Invalid or expired token"), rw (closed, there, h) refl)
      go closed there (ok caller) h = elim (require-Guarded (some caller) action rule refusal) [
        | inl (e, q) ↦ inl (e, rw (closed, there, h) q)
        | inr (c, same, granted, q) ↦ inr (c, closed, cc, granted, rw (closed, there, h) q)
      ]

  -- A handler behind the middleware and `require_admin` runs only where the path needs a token, the
  -- token is valid, the policy engine is there and its evaluation of `is_admin` for the token's
  -- caller has the value `true`; it runs for that caller, from the session of the request. In every
  -- other case the request ends with an error, and nothing is read or written. The request arrives
  -- without a user.
  pub admin_route-Served :
      (from_token : String → Result JwtUser) (request : Request)
      → request.user ≡ none
      → Served from_token request "admin" "data.celine.nudging.authz.is_admin"
          (dispatch from_token (admin_route repr engine handler) request)
  unfolding admin_route require_admin
  admin_route-Served from_token request fresh =
      served from_token "admin" "is_admin"
        "Insufficient permissions: nudging.admin scope or admin group required" request fresh

  -- The same of a handler behind `require_ingest`, for the rule `is_ingest`.
  pub ingest_route-Served :
      (from_token : String → Result JwtUser) (request : Request)
      → request.user ≡ none
      → Served from_token request "ingest" "data.celine.nudging.authz.is_ingest"
          (dispatch from_token (ingest_route repr engine handler) request)
  unfolding ingest_route require_ingest
  ingest_route-Served from_token request fresh =
      served from_token "ingest" "is_ingest"
        "Insufficient permissions: nudging.ingest scope required" request fresh
