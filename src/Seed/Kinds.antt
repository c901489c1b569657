-- ===== src/Seed/Kinds.antt =====
-- seed/loader.py: the active kinds, their texts in the languages of the interface, and
-- `load_seed_dir`. What pydantic makes of an item (seed/schema.py) is a parameter.
use nudging_tool.Prelude.{
  Char, String, Bool, true, false, not, ◌&&◌, Option, none, some, List, [], ◌∷◌, map, is_empty,
  is_nil, contains, if◌then◌else◌,
}
use nudging_tool.Text.{strip, lower}
use nudging_tool.Json.{Json, Dict, arr, obj, end, field, lookup, get, put, truthy}
use nudging_tool.Session.{Result, ok, err, value_error, key_error, type_error, runtime_error}
use nudging_tool.Session.Fallible.{◌>>=◌}
use nudging_tool.Security.Policies.{items_of}
use nudging_tool.Seed.Files.{Entry, Entries, entries_of, child, is_there, load_yaml}
use nudging_tool.Seed.Collect.{Kind, collect_from_dir, collect_legacy, collect_rule_dirs}

-- `X.model_validate(item)`, and then `model_dump(exclude_none=True)`, for the models of
-- seed/schema.py without the validator of `RuleSeed`. An active kind that is accepted has a text for
-- its kind.
pub record Models : Type 0 where
  pub active_kind : Json → Result (String × Dict)
  pub rule : Json → Result Dict
  pub template : Json → Result Dict
  pub preference : Json → Result Dict
  pub override : Json → Result Dict

-- What `load_seed_dir` returns.
pub record LoadedSeed : Type 0 where
  pub rules : List Json
  pub templates : List Json
  pub preferences : List Json
  pub overrides : List Json
  pub active_kinds : List Json

abbrev listed : Option Json → Result (List Json)
listed (some (arr xs)) = ok (items_of xs)
listed _ = err (value_error "expected a list or {active_kinds: [...]}")

unfoldable pub kind_items : Json → Result (List Json)
unfolding items_of
kind_items (arr xs) = ok (items_of xs)
kind_items (obj d) = listed (lookup "active_kinds" d)
kind_items _ = err (value_error "Invalid active kinds structure")

abbrev is_object : Json → Bool
is_object (obj d) = true
is_object _ = false

-- Any exception of the validation becomes a `ValueError`.
abbrev as_value_error : {A : Type 0} → Result A → Result A
as_value_error (ok a) = ok a
as_value_error (err e) = err (value_error "Invalid active kind entry")

unfoldable pub valid_kind : Models → Json → Result (String × Dict)
valid_kind models item =
    if is_object item
    then as_value_error (models.active_kind item)
    else err (value_error "Invalid active kind entry: expected object")

abbrev keep_new : List String → String × Dict → List (String × Dict) → List (String × Dict)
keep_new seen k rest = if contains (strip k.0) seen then rest else k ∷ rest

-- The loop of `_normalize_active_kinds`, after the kinds in `seen`.
unfoldable pub normalize_from : Models → List String → List Json → Result (List (String × Dict))
unfolding valid_kind
normalize_from models seen [] = ok []
normalize_from models seen (item ∷ items) = valid_kind models item >>= λ k.
    normalize_from models (if contains (strip k.0) seen then seen else strip k.0 ∷ seen) items
    >>= λ rest. ok (keep_new seen k rest)

-- `_normalize_active_kinds`: the kinds with their dumps.
unfoldable pub normalize_active_kinds : Models → Json → Result (List (String × Dict))
unfolding kind_items normalize_from
normalize_active_kinds models payload = kind_items payload >>= normalize_from models []

abbrev kinds_file : Entries → Option Entry
kinds_file dir = elim (child "active_kinds.yaml" dir) [
  | some e ↦ some e
  | none ↦ child "active_kinds.yml" dir
]

abbrev kinds_in : Models → Option Entry → Result (List (String × Dict))
kinds_in models none = err (value_error "Missing active kinds file")
kinds_in models (some e) = load_yaml e >>= normalize_active_kinds models

-- `_load_active_kinds`
unfoldable pub load_active_kinds : Models → Entries → Result (List (String × Dict))
unfolding normalize_active_kinds
load_active_kinds models dir = kinds_in models (kinds_file dir)

abbrev or_collect : List Json → Result (List Json) → Result (List Json)
or_collect [] next = next
or_collect (x ∷ xs) next = ok (x ∷ xs)

abbrev or_legacy : List Json → Option Entry → Result (List Json) → Result (List Json)
or_legacy found dir legacy = if is_nil found && not (is_there dir) then legacy else ok found

-- `load_seed_dir`, which also returns what `KNOWN_KINDS` is set to.
unfoldable pub load_seed_dir : Models → Entries → Result (LoadedSeed × List String)
unfolding load_active_kinds
load_seed_dir models root = do
  active ← load_active_kinds models root
  found ← collect_rule_dirs (entries_of (child "rules" root))
  rules ← or_collect found.0 (collect_from_dir Kind.rules (child "rules" root))
  templates ← or_collect found.1 (collect_from_dir Kind.templates (child "templates" root))
  preferences ← collect_from_dir Kind.preferences (child "preferences" root)
  overrides ← collect_from_dir Kind.overrides (child "overrides" root)
  all_rules ←
      or_legacy rules (child "rules" root) (collect_legacy Kind.rules (child "rules.yaml" root))
  all_templates ←
      or_legacy templates (child "templates" root)
        (collect_legacy Kind.templates (child "templates.yaml" root))
  all_preferences ←
      or_legacy preferences (child "preferences" root)
        (collect_legacy Kind.preferences (child "preferences.yaml" root))
  all_overrides ←
      or_legacy overrides (child "overrides" root)
        (collect_legacy Kind.overrides (child "overrides.yaml" root))
  ok (
    record {
      rules = all_rules;
      templates = all_templates;
      preferences = all_preferences;
      overrides = all_overrides;
      active_kinds = map (λ (k : String × Dict). obj k.1) active;
    },
    map (λ (k : String × Dict). k.0) active,
  )

-- `text.lower()` and `.strip()` of the language, or of `en`.
unfoldable pub normal_lang : (Char → String) → String → String
normal_lang other lang = lower other (strip (if is_empty lang then "en" else lang))

abbrev first_text : Dict → Result Json
first_text end = err (runtime_error "StopIteration")
first_text (field k v d) = ok v

-- `_resolve_i18n_text`
unfoldable pub resolve_i18n_text : (Char → String) → Dict → String → Result Json
unfolding normal_lang get
resolve_i18n_text other texts lang =
    if truthy (get (normal_lang other lang) texts)
    then ok (get (normal_lang other lang) texts)
    else if truthy (get "en" texts)
    then ok (get "en" texts)
    else first_text texts

abbrev pub texts_under : String → Dict → Result Dict
texts_under k item = elim (lookup k item) [
  | some (obj d) ↦ ok d
  | none ↦ err (key_error k)
  | _ ↦ err (type_error "object has no attribute 'get'")
]

unfoldable pub localize_kind : (Char → String) → String → Dict → Result Dict
unfolding resolve_i18n_text
localize_kind other lang item = do
  labels ← texts_under "label" item
  label ← resolve_i18n_text other labels lang
  descriptions ← texts_under "description" item
  description ← resolve_i18n_text other descriptions lang
  cadences ← texts_under "cadence" item
  cadence ← resolve_i18n_text other cadences lang
  ok (put "cadence" cadence (put "description" description (put "label" label item)))

-- `localize_active_kinds`
unfoldable pub localize_active_kinds : (Char → String) → String → List Dict → Result (List Dict)
unfolding localize_kind
localize_active_kinds other lang [] = ok []
localize_active_kinds other lang (item ∷ items) = localize_kind other lang item >>= λ here.
    localize_active_kinds other lang items >>= λ rest. ok (here ∷ rest)
