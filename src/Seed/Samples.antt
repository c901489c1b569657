-- ===== src/Seed/Samples.antt =====
-- A seed for the tests: one rule that is there and one that is new, with a template, a preference
-- and an override.
use nudging_tool.Prelude.{true, none, some, [], ◌∷◌}
use nudging_tool.Json.{Dict, null, bool, str, arr, obj, nil, cons, end, field}
use nudging_tool.Session.{ok, err, type_error}
use nudging_tool.Seed.Columns.{Columns}
use nudging_tool.Seed.Apply.{SeedData, SeedApplyRequest}

abbrev pub columns : Columns
columns = record {
  text = λ column. elim [ str s ↦ ok s | _ ↦ err (type_error "text") ];
  optional_text =
      λ column. elim [ null ↦ ok none | str s ↦ ok (some s) | _ ↦ err (type_error "text") ];
  flag = elim [ null ↦ ok none | bool b ↦ ok (some b) | _ ↦ err (type_error "flag") ];
  json_object = elim [ obj d ↦ ok d | _ ↦ err (type_error "object") ];
  json = λ v. ok v;
  integer = λ n. ok n;
  int_of_text = λ s. err (type_error "int");
  int_of_float = λ bits. ok 0;
  negative = λ size. ok 0;
}

abbrev pub welcome_item : Dict
welcome_item = field "id" (str "welcome") (
    field "name" (str "Hello") (
      field "family" (str "onboarding")
        (field "type" (str "informative") (field "severity" (str "info") end))))

abbrev pub outage_item : Dict
outage_item = field "id" (str "outage") (
    field "name" (str "Outage") (
      field "family" (str "alerts") (
        field "type" (str "alert") (
          field "severity" (str "critical")
            (field "scenarios" (arr (cons (str "outage") nil)) end)))))

abbrev pub template_item : Dict
template_item =
    field "rule_id" (str "outage")
      (field "title_jinja" (str "Outage") (field "body_jinja" (str "There is an outage.") end))

abbrev pub preference_item : Dict
preference_item = field "user_id" (str "u1") (field "lang" (str " it ") end)

abbrev pub override_item : Dict
override_item =
    field "rule_id" (str "outage")
      (field "community_id" (str "c1") (field "enabled_override" (bool true) end))

abbrev pub body : SeedApplyRequest
body = record {
  rules = welcome_item ∷ outage_item ∷ welcome_item ∷ [];
  templates = template_item ∷ [];
  preferences = preference_item ∷ [];
  overrides = override_item ∷ [];
}

abbrev pub seeds : SeedData
seeds = record {
  rules = welcome_item ∷ outage_item ∷ [];
  templates = template_item ∷ [];
  preferences = preference_item ∷ [];
  overrides = override_item ∷ [];
  active_kinds = [];
}

-- A seed without the names of its rules.
abbrev pub nameless : SeedApplyRequest
nameless = record {
  rules = welcome_item ∷ field "id" (str "outage") end ∷ [];
  templates = [];
  preferences = [];
  overrides = [];
}

-- One rule and one template.
abbrev pub readable : SeedApplyRequest
readable = record {
  rules = welcome_item ∷ [];
  templates = template_item ∷ [];
  preferences = [];
  overrides = [];
}
