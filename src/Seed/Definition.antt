-- ===== src/Seed/Definition.antt =====
-- seed/loader.py: `validate_rule_definition` and its parts, for the kinds that `KNOWN_KINDS` holds;
-- seed/schema.py: the validator of `RuleSeed`.
use nudging_tool.Prelude.{
  ℕ, ◌+◌, String, Bool, true, false, not, ◌&&◌, ◌||◌, List, [], ◌∷◌, ◌++◌, ◌==◌, is_empty, contains,
  if◌then◌else◌,
}
use nudging_tool.Json.{
  Json, Items, Dict, null, bool, int, float, str, arr, nil, cons, obj, end, get, has, put, truthy,
  is_str,
}
use nudging_tool.Session.{Result, ok, err, type_error}

-- `definition...` with a text, or `definition.conditions[index]...` with one.
pub data DefinitionError : Type 0 where
  in_definition : (text : String) → DefinitionError
  in_condition : (index : ℕ) → (text : String) → DefinitionError

abbrev pub error_if : Bool → DefinitionError → List DefinitionError
error_if true e = e ∷ []
error_if false e = []

abbrev pub all_texts : Items → Bool
all_texts nil = true
all_texts (cons x xs) = is_str x && all_texts xs

abbrev pub is_texts : Json → Bool
is_texts null = true
is_texts (arr xs) = all_texts xs
is_texts _ = false

-- `_validate_required_facts`
unfoldable pub validate_facts_list : Dict → List DefinitionError
validate_facts_list d =
    error_if (not (is_texts (get "required_facts" d)))
      (in_definition ".required_facts must be a list of strings")

-- `_validate_scenarios`
unfoldable pub validate_scenarios : Dict → List DefinitionError
validate_scenarios d =
    error_if (not (is_texts (get "scenarios" d)))
      (in_definition ".scenarios must be a list of strings")

abbrev pub is_text : Json → Bool
is_text (str s) = not (is_empty s)
is_text _ = false

abbrev pub allowed_ops : List String
allowed_ops = "<" ∷ "<=" ∷ ">" ∷ ">=" ∷ "==" ∷ "!=" ∷ []

abbrev pub is_allowed : Json → Bool
is_allowed (str s) = contains s allowed_ops
is_allowed _ = false

abbrev op_errors : ℕ → Json → List DefinitionError
op_errors i op =
    if not (is_text op)
    then in_condition i ".op is required" ∷ []
    else error_if (not (is_allowed op)) (in_condition i ".op must be one of the operators")

unfoldable pub condition_errors : ℕ → Json → List DefinitionError
condition_errors i (obj c) =
    error_if (not (is_text (get "fact_key" c))) (in_condition i ".fact_key is required")
    ++ op_errors i (get "op" c)
    ++ error_if (not (has "value" c)) (in_condition i ".value is required")
condition_errors i _ = in_condition i " must be an object" ∷ []

unfoldable pub conditions_errors : ℕ → Items → List DefinitionError
unfolding condition_errors
conditions_errors i nil = []
conditions_errors i (cons c cs) = condition_errors i c ++ conditions_errors (i + 1) cs

-- `_validate_kpi_conditions`
unfoldable pub validate_kpi_conditions : Json → List DefinitionError
unfolding conditions_errors
validate_kpi_conditions (arr (cons c cs)) = conditions_errors 0 (cons c cs)
validate_kpi_conditions _ = in_definition ".conditions must be a non-empty list" ∷ []

-- `None`, or an instance of `int` or `float`; `bool` is a subclass of `int`.
abbrev pub is_number_or_null : Json → Bool
is_number_or_null null = true
is_number_or_null (bool b) = true
is_number_or_null (int negative size) = true
is_number_or_null (float bits) = true
is_number_or_null _ = false

abbrev threshold_errors : String → Dict → List DefinitionError
threshold_errors kind d =
    error_if
      ((kind == "imported_up" || kind == "imported_down")
        && not (is_number_or_null (get "threshold_pct" d)))
      (in_definition ".threshold_pct must be a number")

abbrev kpi_errors : String → Dict → List DefinitionError
kpi_errors kind d =
    if kind == "kpi_conditions" then validate_kpi_conditions (get "conditions" d) else []

-- The checks that do not depend on the kind.
abbrev pub common_errors : Dict → List DefinitionError
common_errors d = validate_facts_list d ++ validate_scenarios d

abbrev kind_required : DefinitionError
kind_required = in_definition ".kind is required"

-- A kind that is no text: a list or an object cannot be looked for in a set.
unfoldable pub no_kind : Json → Dict → Result (List DefinitionError)
unfolding validate_facts_list validate_scenarios
no_kind (arr xs) d = err (type_error "unhashable type")
no_kind (obj e) d = err (type_error "unhashable type")
no_kind _ d = ok (kind_required ∷ common_errors d)

unfoldable pub definition_errors : List String → Json → Dict → Result (List DefinitionError)
unfolding no_kind validate_facts_list validate_scenarios validate_kpi_conditions
definition_errors known (str kind) d =
    if is_empty kind
    then ok (kind_required ∷ common_errors d)
    else if not (contains kind known)
    then ok []
    else ok (common_errors d ++ threshold_errors kind d ++ kpi_errors kind d)
definition_errors known kind d = no_kind kind d

-- `validate_rule_definition`
unfoldable pub validate_rule_definition : List String → Json → Result (List DefinitionError)
unfolding definition_errors
validate_rule_definition known (obj d) = definition_errors known (get "kind" d) d
validate_rule_definition known _ = ok (in_definition " must be an object" ∷ [])

abbrev object_or_empty : Json → Dict
object_or_empty (obj d) = d
object_or_empty _ = end

abbrev with_scenarios : Json → Dict → Dict
with_scenarios scenarios d = if truthy (get "scenarios" d) then d else put "scenarios" scenarios d

-- `_merge_scenarios` of `RuleSeed`, on the fields of the rule.
unfoldable pub merge_scenarios : Dict → Dict
merge_scenarios r =
    if truthy (get "scenarios" r)
    then put "definition"
        (obj (with_scenarios (get "scenarios" r) (object_or_empty (get "definition" r)))) r
    else r
