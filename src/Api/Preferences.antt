-- ===== src/Api/Preferences.antt =====
-- api/routes/preferences.py: the catalog of kinds and the preferences of the caller.
pub mod Laws
use nudging_tool.Prelude.{
  ℕ, String, Bool, true, false, not, ◌&&◌, ◌||◌, Option, none, some, List, [], ◌∷◌, map, ◌==◌,
  contains, select, leb, is_empty, if◌then◌else◌,
}
use nudging_tool.Text.{strip, is_email}
use nudging_tool.Json.{Json, Dict, null, obj, arr, truthy, end, put, of_texts}
use nudging_tool.Db.{UserPreference, Db}
use nudging_tool.Session.{
  Result, ok, err, value_error, Exec, pure, lift, query, modify, commit, first, scalar_one_or_none,
  ◌>>=◌, ◌>>◌,
}
use nudging_tool.Env.{ActiveKind, Env, uuid4, utc_now}
use nudging_tool.Orchestrator.Kinds.{kinds, required_kinds, enabled_kinds, append_missing}
use nudging_tool.Api.Catalog.{CatalogItem, notification_catalog, listed_kinds}
use nudging_tool.Api.User.{JwtUser, owned_user_ids}

pub record UserPreferenceUpdateIn : Type 0 where
  pub max_per_day : ℕ
  pub channel_email : Option Bool
  pub email : Option String
  pub enabled_notification_kinds : Option (List String)

pub record UserPreferenceOut : Type 0 where
  pub max_per_day : ℕ
  pub channel_email : Bool
  pub email : Option String
  pub enabled_notification_kinds : List String

abbrev text_or_empty : Option String → String
text_or_empty none = ""
text_or_empty (some s) = s

-- `validate_email_preferences`, the validator of `UserPreferenceUpdateIn`.
unfoldable pub validate_email_preferences : UserPreferenceUpdateIn → Result UserPreferenceUpdateIn
validate_email_preferences body = elim body.channel_email [
  | some true ↦
      (let email = strip (text_or_empty body.email) in
        if is_empty email
        then err (value_error "email is required when channel_email is enabled")
        else if not (is_email email)
        then err (value_error "email format is invalid")
        else ok (record body { email = some email }))
  | _ ↦ ok body
]

abbrev pub insert_latest : UserPreference → List UserPreference → List UserPreference
insert_latest p [] = p ∷ []
insert_latest p (x ∷ xs) =
    let rest = insert_latest p xs in if leb x.updated_at p.updated_at then p ∷ x ∷ xs else x ∷ rest

unfoldable pub sort_latest : List UserPreference → List UserPreference
sort_latest [] = []
sort_latest (p ∷ ps) = insert_latest p (sort_latest ps)

-- `_load_preference`: the latest among the caller's own.
unfoldable pub load_preference : JwtUser → Db → Option UserPreference
unfolding sort_latest
load_preference user db = first (
    sort_latest
      (select (λ (p : UserPreference). contains p.user_id (owned_user_ids user)) db.preferences))

abbrev pub preference_out : Option UserPreference → List CatalogItem → UserPreferenceOut
preference_out none catalog = record {
  max_per_day = 3;
  channel_email = false;
  email = none;
  enabled_notification_kinds = listed_kinds catalog;
}
preference_out (some pref) catalog = record {
  max_per_day = pref.max_per_day;
  channel_email = pref.channel_email;
  email = pref.email;
  enabled_notification_kinds = listed_kinds catalog;
}

abbrev stripped_or_none : String → Option String
stripped_or_none text = if is_empty (strip text) then none else some (strip text)

abbrev or_keep : {A : Type 0} → Option A → A → A
or_keep none old = old
or_keep (some new) old = new

abbrev email_after : Option String → Option String → Option String
email_after none old = old
email_after (some text) old = stripped_or_none text

-- `dict(pref.consents or {})`
abbrev pub consents_dict : Json → Dict
consents_dict (obj d) = d
consents_dict _ = end

abbrev consents_after : Option (List String) → List ActiveKind → Json → Json
consents_after none active old = old
consents_after (some wanted) active old = obj (
    put "enabled_notification_kinds"
      (arr (
        of_texts (
          append_missing (required_kinds active) (select (λ k. contains k (kinds active)) wanted))))
      (consents_dict old))

-- The assignments of `update_my_preferences`.
unfoldable pub updated_preference :
    UserPreferenceUpdateIn → List ActiveKind → UserPreference → UserPreference
updated_preference body active pref = record pref {
  max_per_day = body.max_per_day;
  channel_email = or_keep body.channel_email pref.channel_email;
  email = email_after body.email pref.email;
  consents = consents_after body.enabled_notification_kinds active pref.consents;
}

abbrev pub store_preference : UserPreference → Db → Db
store_preference p db = record db {
  preferences = map (λ (x : UserPreference). if x.id == p.id then p else x) db.preferences;
}

abbrev pub add_preference : UserPreference → Db → Db
add_preference p db = record db { preferences = p ∷ db.preferences }

module _ (env : Env) (user : JwtUser) where
  -- A new row of the caller, with the defaults of its columns.
  unfoldable pub new_preference : Exec UserPreference
  new_preference = do
    id ← uuid4 env
    now ← utc_now env
    pure (record {
      id = id;
      user_id = user.sub;
      community_id = none;
      lang = "en";
      channel_web = true;
      channel_email = false;
      channel_telegram = false;
      channel_whatsapp = false;
      email = none;
      telegram_chat_id = none;
      whatsapp_phone = none;
      max_per_day = 3;
      consents = obj end;
      updated_at = now;
    })

  abbrev canonical_row : UserPreference → Option UserPreference → UserPreference
  canonical_row pref none = record pref { user_id = user.sub }
  canonical_row pref (some canonical) = canonical

  -- The row to update: the loaded one under the canonical id, or the row of that id.
  unfoldable pub target_row : UserPreference → Exec UserPreference
  target_row pref = if pref.user_id == user.sub then pure pref else (do
    rows ← query (λ db. select (λ (p : UserPreference). p.user_id == user.sub) db.preferences)
    found ← lift (scalar_one_or_none rows)
    pure (canonical_row pref found))

  unfoldable pub write_preference :
      UserPreferenceUpdateIn → List ActiveKind → Option UserPreference → Exec UserPreference
  unfolding new_preference target_row
  write_preference body active none = do
    fresh ← new_preference
    let pref = updated_preference body active fresh
    modify (add_preference pref)
    commit
    pure pref
  write_preference body active (some loaded) = do
    target ← target_row loaded
    let pref = updated_preference body active target
    modify (store_preference pref)
    commit
    pure pref

  unfoldable pub get_my_preferences : Exec UserPreferenceOut
  get_my_preferences = do
    pref ← query (load_preference user)
    active ← lift env.active_kinds
    catalog ← lift (notification_catalog env pref none active)
    pure (preference_out pref catalog)

  -- `get_my_notification_catalog`
  unfoldable pub get_my_notification_catalog : (lang : Option String) → Exec (List CatalogItem)
  get_my_notification_catalog lang = do
    pref ← query (load_preference user)
    active ← lift env.active_kinds
    lift (notification_catalog env pref lang active)

  unfoldable pub update_my_preferences : UserPreferenceUpdateIn → Exec UserPreferenceOut
  unfolding write_preference
  update_my_preferences body = do
    loaded ← query (load_preference user)
    active ← lift env.active_kinds
    before ← lift (notification_catalog env loaded none active)
    pref ← write_preference body active loaded
    catalog ← lift (notification_catalog env (some pref) none active)
    pure (preference_out (some pref) catalog)
