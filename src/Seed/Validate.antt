-- ===== src/Seed/Validate.antt =====
-- seed/loader.py: `validate_seed`. An item that its model refuses is left out, and every fault is
-- reported.
pub mod Kinds
pub mod Localize
pub mod Laws
pub mod Seed
mod Tests
use nudging_tool.Prelude.{
  ℕ, ◌+◌, String, Bool, true, false, not, ◌||◌, Option, none, some, List, [], ◌∷◌, ◌++◌, map,
  is_empty, is_nil, contains, if◌then◌else◌,
}
use nudging_tool.Text.{strip}
use nudging_tool.Json.{Json, Dict, str, obj, get}
use nudging_tool.Session.{Result, ok, err}
use nudging_tool.Session.Fallible.{◌>>=◌}
use nudging_tool.Seed.Apply.{SeedData}
use nudging_tool.Seed.Definition.{DefinitionError, validate_rule_definition, merge_scenarios}
use nudging_tool.Seed.Kinds.{Models, LoadedSeed}

-- `collection[index]` with a text, or `rules[index]` with a fault of the definition.
pub data SeedError : Type 0 where
  in_item : (collection : String) → (index : ℕ) → (text : String) → SeedError
  in_rule : (index : ℕ) → DefinitionError → SeedError

abbrev pub accept :
    {A : Type 0} → String → ℕ → Result A → List A × List SeedError → List A × List SeedError
accept collection i (ok a) rest = (a ∷ rest.0, rest.1)
accept collection i (err e) rest = (rest.0, in_item collection i ": refused" ∷ rest.1)

-- The loop over templates, preferences or overrides.
unfoldable pub validate_items :
    (Json → Result Dict) → String → ℕ → List Json → List Dict × List SeedError
validate_items model collection i [] = ([], [])
validate_items model collection i (item ∷ items) =
    let rest = validate_items model collection (i + 1) items in
    accept collection i (model item) rest

abbrev pub accept_rule :
    ℕ → List String → Result Dict → List Dict × List SeedError → Result (List Dict × List SeedError)
accept_rule i known (err e) rest = ok (rest.0, in_item "rules" i ": refused" ∷ rest.1)
accept_rule i known (ok r) rest =
    validate_rule_definition known (get "definition" (merge_scenarios r)) >>= λ faults.
    ok (merge_scenarios r ∷ rest.0, map (in_rule i) faults ++ rest.1)

-- The loop over rules. Definitions that raise are met in order, but only the exception counts.
unfoldable pub validate_rules :
    Models → List String → ℕ → List Json → Result (List Dict × List SeedError)
validate_rules models known i [] = ok ([], [])
validate_rules models known i (item ∷ items) =
    validate_rules models known (i + 1) items >>= accept_rule i known (models.rule item)

abbrev pub languages : List String
languages = "it" ∷ "en" ∷ "es" ∷ []

abbrev pub is_blank : Json → Bool
is_blank (str s) = is_empty (strip s)
is_blank _ = true

-- The languages without a text.
unfoldable pub missing_languages : List String → Dict → List String
missing_languages [] texts = []
missing_languages (l ∷ ls) texts =
    let rest = missing_languages ls texts in if is_blank (get l texts) then l ∷ rest else rest

-- `_validate_i18n_map`
unfoldable pub validate_i18n_map : ℕ → Json → List SeedError
unfolding missing_languages
validate_i18n_map i (obj texts) =
    map (λ l. in_item "active_kinds" i l) (missing_languages languages texts)
validate_i18n_map i _ = in_item "active_kinds" i " must be an object" ∷ []

-- The faults of the three texts of a kind.
unfoldable pub kind_faults : ℕ → Dict → List SeedError
unfolding validate_i18n_map
kind_faults i k =
    validate_i18n_map i (get "label" k)
    ++ validate_i18n_map i (get "description" k)
    ++ validate_i18n_map i (get "cadence" k)

abbrev pub skip_kind : SeedError → List Dict × List SeedError → List Dict × List SeedError
skip_kind e rest = (rest.0, e ∷ rest.1)

abbrev pub keep_kind : ℕ → Dict → List Dict × List SeedError → List Dict × List SeedError
keep_kind i k rest = (k ∷ rest.0, kind_faults i k ++ rest.1)

abbrev pub seen_after : List String → Result (String × Dict) → List String
seen_after seen (err e) = seen
seen_after seen (ok k) = if contains (strip k.0) seen then seen else strip k.0 ∷ seen

abbrev pub accept_kind :
    ℕ
    → List String
    → Result (String × Dict)
    → List Dict × List SeedError
    → List Dict × List SeedError
accept_kind i seen (err e) rest = skip_kind (in_item "active_kinds" i ": refused") rest
accept_kind i seen (ok k) rest =
    if contains (strip k.0) seen
    then skip_kind (in_item "active_kinds" i " duplicates") rest
    else keep_kind i k.1 rest

-- The loop over the active kinds, after the kinds in `seen`.
unfoldable pub validate_kinds : Models → List String → ℕ → List Json → List Dict × List SeedError
unfolding kind_faults
validate_kinds models seen i [] = ([], [])
validate_kinds models seen i (item ∷ items) =
    let rest = validate_kinds models (seen_after seen (models.active_kind item)) (i + 1) items in
    accept_kind i seen (models.active_kind item) rest

abbrev pub kinds_or_given : List Dict → List Json → List Json
kinds_or_given [] given = given
kinds_or_given (k ∷ ks) given = map obj (k ∷ ks)

-- `validate_seed`, where `known` is `KNOWN_KINDS`.
unfoldable pub validate_seed :
    Models → List String → LoadedSeed → Result (SeedData × List SeedError)
validate_seed models known seed =
    let kinds = validate_kinds models [] 0 seed.active_kinds in
    let templates = validate_items models.template "templates" 0 seed.templates in
    let preferences = validate_items models.preference "preferences" 0 seed.preferences in
    let overrides = validate_items models.override "overrides" 0 seed.overrides in
    validate_rules models known 0 seed.rules >>= λ rules. ok (
      record {
        rules = rules.0;
        templates = templates.0;
        preferences = preferences.0;
        overrides = overrides.0;
        active_kinds = kinds_or_given kinds.0 seed.active_kinds;
      },
      kinds.1 ++ rules.1 ++ templates.1 ++ preferences.1 ++ overrides.1,
    )
