-- ===== src/Api/User.antt =====
-- The identity of a caller: `JwtUser`, and `_owned_user_ids` of the three user-facing routers.
use nudging_tool.Prelude.{String, Bool, Option, some, List, [], ◌∷◌, contains, if◌then◌else◌}
use nudging_tool.Json.{Dict}

pub record JwtUser : Type 0 where
  pub sub : String
  pub preferred_username : Option String
  pub is_service_account : Bool
  pub claims : Dict

-- The subject, and the user name where there is one that differs.
unfoldable pub owned_user_ids : JwtUser → List String
owned_user_ids user = elim user.preferred_username [
  | some (String.◌∷◌ c s) ↦
      if contains (String.◌∷◌ c s) (user.sub ∷ [])
      then user.sub ∷ []
      else user.sub ∷ String.◌∷◌ c s ∷ []
  | _ ↦ user.sub ∷ []
]
