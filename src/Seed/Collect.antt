-- ===== src/Seed/Collect.antt =====
-- seed/loader.py: the items of the seed files. An item is any value of YAML until it is validated.
use nudging_tool.Prelude.{
  String, Bool, true, false, ◌||◌, Option, none, some, List, [], ◌∷◌, ◌++◌, is_empty, is_nil,
  contains, if◌then◌else◌,
}
use nudging_tool.Json.{Json, Dict, str, arr, obj, lookup, has, put, texts}
use nudging_tool.Session.{Result, ok, err, type_error}
use nudging_tool.Session.Fallible.{◌>>=◌}
use nudging_tool.Security.Policies.{items_of}
use nudging_tool.Security.Auth.{starts_with}
use nudging_tool.Seed.Files.{
  Entry, file, directory, Entries, empty, entry, child, entries_of, load_yaml, Found, stem,
  yaml_files,
}

-- `needle in text`, for texts.
unfoldable pub is_part : (needle text : String) → Bool
is_part needle String.[] = is_empty needle
is_part needle (String.◌∷◌ c s) =
    let rest = is_part needle s in if starts_with needle (String.◌∷◌ c s) then true else rest

-- `key in item`
unfoldable pub has_key : String → Json → Result Bool
has_key key (obj d) = ok (has key d)
has_key key (arr xs) = ok (contains key (texts xs))
has_key key (str s) = ok (is_part key s)
has_key key _ = err (type_error "argument is not iterable")

-- `item[key] = value`
unfoldable pub set_key : String → String → Json → Result Json
set_key key value (obj d) = ok (obj (put key (str value) d))
set_key key value _ = err (type_error "object does not support item assignment")

abbrev set_missing : String → String → Bool → Json → Result Json
set_missing key value there item =
    if there || is_empty value then ok item else set_key key value item

-- `if key not in item and value: item[key] = value`
unfoldable pub fill : String → String → Json → Result Json
unfolding has_key set_key
fill key value item = has_key key item >>= λ there. set_missing key value there item

-- The last of the directories, or the empty text.
unfoldable pub last : List String → String
last [] = ""
last (d ∷ []) = d
last (d ∷ e ∷ ds) = last (e ∷ ds)

abbrev and_key : String → Json → Bool → Result Bool
and_key key item true = has_key key item
and_key key item false = ok false

-- `"a" in item and "b" in item`
unfoldable pub has_both : String → String → Json → Result Bool
unfolding has_key
has_both a b item = has_key a item >>= and_key b item

abbrev or_text : String → String → String
or_text a b = if is_empty a then b else a

abbrev filled_template : Found → String → Json → Bool → Result Json
filled_template source hint item true = ok item
filled_template source hint item false =
    fill "rule_id" (or_text hint (last source.directories)) item >>= fill "lang" (stem source.name)

-- `_infer_template_coords`; without a hint the hint is the empty text.
unfoldable pub infer_template_coords : Found → (hint : String) → Json → Result Json
unfolding fill last has_both
infer_template_coords source hint item =
    has_both "rule_id" "lang" item >>= filled_template source hint item

abbrev filled_override : Found → Json → Bool → Result Json
filled_override source item true = ok item
filled_override source item false =
    if is_nil source.directories
    then ok item
    else fill "community_id" (last source.directories) item >>= fill "rule_id" (stem source.name)

-- `_infer_override_coords`
unfoldable pub infer_override_coords : Found → Json → Result Json
unfolding fill last has_both
infer_override_coords source item =
    has_both "rule_id" "community_id" item >>= filled_override source item

-- The collection that a file holds; `key` of the source is its name.
pub data Kind : Type 0 where
  rules templates preferences overrides : Kind

abbrev pub kind_text : Kind → String
kind_text rules = "rules"
kind_text templates = "templates"
kind_text preferences = "preferences"
kind_text overrides = "overrides"

-- `[item]` if the item has both keys, and nothing otherwise.
abbrev single : String → String → Json → Result (List Json)
single a b item = has_both a b item >>= λ both. ok (if both then item ∷ [] else [])

-- One object in a file of its own; `source` is there if the caller gives the root.
unfoldable pub single_item : Kind → Option Found → Dict → Result (List Json)
unfolding infer_template_coords infer_override_coords
single_item rules source d = single "id" "name" (obj d)
single_item templates none d = single "title_jinja" "body_jinja" (obj d)
single_item templates (some found) d =
    infer_template_coords found "" (obj d) >>= single "title_jinja" "body_jinja"
single_item preferences source d = ok (if has "user_id" d then obj d ∷ [] else [])
single_item overrides none d = single "rule_id" "community_id" (obj d)
single_item overrides (some found) d =
    infer_override_coords found (obj d) >>= single "rule_id" "community_id"

abbrev listed_or_single : Kind → Option Found → Dict → Option Json → Result (List Json)
listed_or_single kind source d (some (arr xs)) = ok (items_of xs)
listed_or_single kind source d _ = single_item kind source d

-- `_normalize_items`
unfoldable pub normalize_items : Kind → Option Found → Json → Result (List Json)
unfolding single_item items_of
normalize_items kind source (arr xs) = ok (items_of xs)
normalize_items kind source (obj d) = listed_or_single kind source d (lookup (kind_text kind) d)
normalize_items kind source _ = ok []

-- `for x in xs: out.extend(f(x))`
unfoldable pub extend_all : {A B : Type 0} → (A → Result (List B)) → List A → Result (List B)
extend_all f [] = ok []
extend_all f (x ∷ xs) = f x >>= λ ys. extend_all f xs >>= λ rest. ok (ys ++ rest)

abbrev collect_file : Kind → Found → Result (List Json)
collect_file kind found = load_yaml found.content >>= normalize_items kind (some found)

-- `_collect_from_dir`
unfoldable pub collect_from_dir : Kind → Option Entry → Result (List Json)
unfolding normalize_items extend_all
collect_from_dir kind dir = extend_all (collect_file kind) (yaml_files (entries_of dir))

-- `_collect_legacy`
unfoldable pub collect_legacy : Kind → Option Entry → Result (List Json)
unfolding normalize_items
collect_legacy kind none = ok []
collect_legacy kind (some e) = load_yaml e >>= normalize_items kind none

-- `for it in items: f(it)`
unfoldable pub map_all : {A B : Type 0} → (A → Result B) → List A → Result (List B)
map_all f [] = ok []
map_all f (x ∷ xs) = f x >>= λ y. map_all f xs >>= λ ys. ok (y ∷ ys)

abbrev rule_file : Entries → Option Entry
rule_file dir = elim (child "rule.yaml" dir) [ some e ↦ some e | none ↦ child "rule.yml" dir ]

-- The rules of one directory: a rule without an id is named after it.
unfoldable pub rules_of : String → Option Entry → Result (List Json)
unfolding normalize_items fill map_all
rules_of rule_id none = ok []
rules_of rule_id (some e) = load_yaml e >>= λ payload.
    normalize_items rules
      (some (record { directories = rule_id ∷ []; name = "rule.yaml"; content = e })) payload
    >>= map_all (fill "id" rule_id)

abbrev pub rule_templates : String → Found → Result (List Json)
rule_templates rule_id found =
    collect_file templates found >>= map_all (infer_template_coords found rule_id)

-- What one directory of rules/ gives.
unfoldable pub rule_dir : String → Entries → Result (List Json × List Json)
unfolding rules_of extend_all map_all
rule_dir rule_id dir = rules_of rule_id (rule_file dir) >>= λ found_rules.
    extend_all (rule_templates rule_id) (yaml_files (entries_of (child "templates" dir)))
    >>= λ found_templates. ok (found_rules, found_templates)

-- `_collect_rule_dirs`
unfoldable pub collect_rule_dirs : Entries → Result (List Json × List Json)
unfolding rule_dir
collect_rule_dirs empty = ok ([], [])
collect_rule_dirs (entry name (file r) rest) = collect_rule_dirs rest
collect_rule_dirs (entry name (directory es) rest) = rule_dir name es >>= λ here.
    collect_rule_dirs rest >>= λ others. ok (here.0 ++ others.0, here.1 ++ others.1)
