-- ===== src/Orchestrator/Kinds.antt =====
-- orchestrator/preferences.py: the preference of a user, the kinds of notification that it enables,
-- and the kind of a rule.
pub mod Laws
use nudging_tool.Prelude.{
  String, Bool, true, false, not, ◌&&◌, Option, none, some, List, [], ◌∷◌, ◌++◌, map, ◌==◌,
  contains, select, is_empty, if◌then◌else◌,
}
use nudging_tool.Text.{strip}
use nudging_tool.Json.{Json, Items, Dict, str, arr, obj, texts, get}
use nudging_tool.Db.{Rule, UserPreference, Db}
use nudging_tool.Session.{first}
use nudging_tool.Env.{ActiveKind}
use nudging_tool.Engine.Resolve.{preferences_of}
use nudging_tool.Env.{Env}

abbrev pub kinds : List ActiveKind → List String
kinds active = map (λ k. k.kind) active

-- `_required_active_kind_ids`: the kinds that a user cannot edit.
abbrev pub required_kinds : List ActiveKind → List String
required_kinds active = kinds (select (λ k. not k.editable) active)

-- `for kind in required: if kind not in enabled: enabled.append(kind)`
unfoldable pub append_missing : List String → List String → List String
append_missing [] enabled = enabled
append_missing (k ∷ ks) enabled =
    append_missing ks (if contains k enabled then enabled else enabled ++ k ∷ [])

abbrev pub enabled_by : Json → List ActiveKind → List String
enabled_by (arr raw) active =
    append_missing (required_kinds active) (select (λ k. contains k (kinds active)) (texts raw))
enabled_by _ active = kinds active

abbrev pub consents_kinds : Json → List ActiveKind → List String
consents_kinds (obj consents) active = enabled_by (get "enabled_notification_kinds" consents) active
consents_kinds _ active = kinds active

-- An entry of the consents that is no text is no active kind, so it is dropped as one that is not.
unfoldable pub enabled_kinds : Option UserPreference → List ActiveKind → List String
unfolding append_missing
enabled_kinds none active = kinds active
enabled_kinds (some pref) active = consents_kinds pref.consents active

-- `get_user_pref`: the community's own preference first.
unfoldable pub get_user_pref : Env → Db → String → Option String → Option UserPreference
get_user_pref env db user_id community_id = first (preferences_of env db user_id community_id)

abbrev kind_of : Json → Option String
kind_of (str kind) = if is_empty (strip kind) then none else some kind
kind_of _ = none

-- `get_rule_kind`; the id is the key of the table, so there is one row at most.
unfoldable pub rule_kind : List Rule → Option String
rule_kind [] = none
rule_kind (rule ∷ rest) = kind_of (get "kind" rule.definition)

abbrev pub rules_by_id : String → Db → List Rule
rules_by_id rule_id db = select (λ r. r.id == rule_id) db.rules
