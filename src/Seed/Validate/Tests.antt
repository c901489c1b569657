-- ===== src/Seed/Validate/Tests.antt =====
-- A seed directory, loaded, validated and shown.
use nudging_tool.Prelude.{◌≡◌, refl, List, [], ◌∷◌, All}
use nudging_tool.Text.{strip, is_space}
use nudging_tool.Json.{Json, Dict, str, arr, obj, nil, cons, end, field, lookup, get, has, put}
use nudging_tool.Session.{ok, err, type_error}
use nudging_tool.Seed.Apply.{SeedData}
use nudging_tool.Seed.Collect.{
  collect_rule_dirs, collect_from_dir, collect_legacy, has_key, set_key, fill, last, has_both,
}
use nudging_tool.Seed.Definition.{in_condition, validate_rule_definition, merge_scenarios}
use nudging_tool.Seed.Files.{
  Entries, empty, entry, file, directory, child, load_yaml, rglob, yaml_files, stem, ends_with,
}
use nudging_tool.Seed.Kinds.{
  Models, LoadedSeed, load_seed_dir, load_active_kinds, localize_active_kinds,
}
use nudging_tool.Seed.Validate.{
  validate_items, validate_rules, validate_kinds, missing_languages, validate_seed,
}
use nudging_tool.Seed.Validate.Kinds.{IsKind}
use nudging_tool.Seed.Validate.Localize.{IsShown, localize_active_kinds-IsShown}
use nudging_tool.Seed.Validate.Seed.{AcceptsSeed, validate_seed-AcceptsSeed}

abbrev models : Models
models = record {
  active_kind = elim [ obj d ↦ ok ("welcome", d) | _ ↦ err (type_error "kind") ];
  rule = elim [ obj d ↦ ok d | _ ↦ err (type_error "rule") ];
  template = elim [ obj d ↦ ok d | _ ↦ err (type_error "template") ];
  preference = elim [ obj d ↦ ok d | _ ↦ err (type_error "preference") ];
  override = elim [ obj d ↦ ok d | _ ↦ err (type_error "override") ];
}

abbrev texts : Json
texts = obj (field "it" (str "ciao") (field "en" (str "hello") (field "es" (str "hola") end)))

abbrev kind : Dict
kind = field "label" texts (field "description" texts (field "cadence" texts end))

abbrev definition : Json
definition = obj (field "kind" (str "welcome") end)

abbrev rule : Dict
rule = field "name" (str "Hello") (field "definition" definition (field "id" (str "hello") end))

abbrev template : Dict
template = field "title_jinja" (str "Hi") (field "body_jinja" (str "Welcome") end)

-- active_kinds.yaml and rules/hello/{rule.yaml,templates/en.yaml}.
abbrev tree : Entries
tree = entry "active_kinds.yaml" (file (ok (arr (cons (obj kind) nil)))) (
    entry "rules"
      (directory (
        entry "hello"
          (directory (
            entry "rule.yaml"
              (file (
                ok (
                  obj (
                    field "id" (str "hello")
                      (field "name" (str "Hello") (field "definition" definition end))))))
              (entry "templates" (directory (entry "en.yaml" (file (ok (obj template))) empty))
                empty)))
          empty))
      empty)

abbrev loaded : LoadedSeed
loaded = record {
  rules = obj rule ∷ [];
  templates = obj template ∷ [];
  preferences = [];
  overrides = [];
  active_kinds = obj kind ∷ [];
}

abbrev validated : SeedData
validated = record {
  rules = rule ∷ [];
  templates = template ∷ [];
  preferences = [];
  overrides = [];
  active_kinds = obj kind ∷ [];
}

tree_loaded :
    load_seed_dir models tree
    ≡ ok (
      record {
        rules =
            obj (
              field "id"
                (str "hello")
                (field "name" (str "Hello") (field "definition" definition end)))
            ∷ [];
        templates = obj (put "rule_id" (str "hello") (put "lang" (str "en") template)) ∷ [];
        preferences = [];
        overrides = [];
        active_kinds = obj kind ∷ [];
      },
      "welcome" ∷ [],
    )
unfolding load_seed_dir load_active_kinds load_yaml child collect_rule_dirs collect_from_dir
    collect_legacy yaml_files rglob has_key set_key fill last has_both stem ends_with has lookup put
tree_loaded = refl

accepted : validate_seed models ("welcome" ∷ []) loaded ≡ ok (validated, [])
unfolding validate_seed validate_items validate_rules validate_kinds validate_rule_definition
    merge_scenarios get strip is_space
accepted = refl

validate_seed-AcceptsSeed_example : AcceptsSeed models ("welcome" ∷ []) loaded validated
validate_seed-AcceptsSeed_example =
    validate_seed-AcceptsSeed models ("welcome" ∷ []) loaded validated accepted

kinds_translated : All IsKind (kind ∷ [])
unfolding missing_languages get strip is_space
kinds_translated = ((refl, refl, refl), tt)

localize_active_kinds-IsShown_example :
    (shown : List Dict) × (localize_active_kinds (λ _. "") "de" (kind ∷ []) ≡ ok shown)
    × All IsShown shown
localize_active_kinds-IsShown_example =
    localize_active_kinds-IsShown (λ _. "") "de" (kind ∷ []) kinds_translated

-- A condition without an operator and a value.
bad_condition :
    validate_rule_definition ("kpi_conditions" ∷ []) (
      obj (
        field "kind"
          (str "kpi_conditions")
          (field "conditions" (arr (cons (obj (field "fact_key" (str "kwh") end)) nil)) end)))
    ≡ ok (in_condition 0 ".op is required" ∷ in_condition 0 ".value is required" ∷ [])
unfolding validate_rule_definition get has
bad_condition = refl

-- A kind that is a list makes the validation raise.
list_kind :
    validate_rule_definition [] (obj (field "kind" (arr nil) end))
    ≡ err (type_error "unhashable type")
unfolding validate_rule_definition get
list_kind = refl
