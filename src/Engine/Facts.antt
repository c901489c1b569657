-- ===== src/Engine/Facts.antt =====
-- The contract of an event's facts: `_validate_facts_contract`, `_validate_required_facts` and
-- `_facts_from_event` of the engine, and `validate_facts_contract` of engine/rules/contract.py.
pub mod Laws
use nudging_tool.Prelude.{
  String, Bool, false, not, Option, none, some, List, [], ◌∷◌, ◌++◌, is_empty, is_nil,
  if◌then◌else◌,
}
use nudging_tool.Json.{Json, Items, Dict, str, arr, obj, nil, cons, end, field, truthy, get, has}
use nudging_tool.Db.{Rule}
use nudging_tool.Session.{Result, ok, err, type_error}
use nudging_tool.Engine.{DigitalTwinEvent}

-- `isinstance(v, str)` and `v` is not empty.
abbrev pub is_filled_text : Json → Bool
is_filled_text (str s) = not (is_empty s)
is_filled_text _ = false

unfoldable pub contract_errors : Dict → List String
contract_errors facts =
    (if is_filled_text (get "facts_version" facts) then [] else "missing facts_version" ∷ [])
    ++ (if is_filled_text (get "scenario" facts) then [] else "missing scenario" ∷ [])

-- engine_service.py: both must be filled texts.
unfoldable pub check_facts_contract : Dict → Bool × List String
unfolding contract_errors
check_facts_contract facts = (is_nil (contract_errors facts), contract_errors facts)

pub record FactsContractResult : Type 0 where
  pub ok : Bool
  pub errors : List String
  pub scenario : Option String
  pub facts_version : Option String

abbrev pub text_or_none : Json → Option String
text_or_none (str s) = some s
text_or_none _ = none

unfoldable pub truthy_errors : Dict → List String
truthy_errors facts =
    (if truthy (get "facts_version" facts) then [] else "missing facts_version" ∷ [])
    ++ (if truthy (get "scenario" facts) then [] else "missing scenario" ∷ [])

-- contract.py: both must be true values, of any type.
unfoldable pub validate_facts_contract : Dict → FactsContractResult
unfolding truthy_errors
validate_facts_contract facts = record {
  ok = is_nil (truthy_errors facts);
  errors = truthy_errors facts;
  scenario = text_or_none (get "scenario" facts);
  facts_version = text_or_none (get "facts_version" facts);
}

-- What a `for` over a value goes through; the characters of a text, the keys of a dict.
unfoldable pub characters : String → Items
characters String.[] = nil
characters (String.◌∷◌ c s) = cons (str (String.◌∷◌ c "")) (characters s)

unfoldable pub keys : Dict → Items
keys end = nil
keys (field k v d) = cons (str k) (keys d)

abbrev pub iterate : Json → Result Items
iterate (arr xs) = ok xs
iterate (str s) = ok (characters s)
iterate (obj d) = ok (keys d)
iterate _ = err (type_error "object is not iterable")

-- `[k for k in required if k not in facts]`; a list or a dict as `k` cannot be hashed.
unfoldable pub missing_facts : Items → Dict → Result Items
missing_facts nil facts = ok nil
missing_facts (cons (str k) ks) facts = elim (missing_facts ks facts) [
  | ok rest ↦ ok (if has k facts then rest else cons (str k) rest)
  | err e ↦ err e
]
missing_facts (cons (arr xs) ks) facts = err (type_error "unhashable type: 'list'")
missing_facts (cons (obj d) ks) facts = err (type_error "unhashable type: 'dict'")
missing_facts (cons k ks) facts = elim (missing_facts ks facts) [
  | ok rest ↦ ok (cons k rest)
  | err e ↦ err e
]

unfoldable pub required_facts : Json → Dict → Result Items
required_facts required facts =
    if truthy required
    then elim (iterate required) [ ok ks ↦ missing_facts ks facts | err e ↦ err e ]
    else ok nil

-- `_validate_required_facts`: the missing facts; the check passes when there are none.
unfoldable pub validate_required_facts : Rule → Dict → Result Items
unfolding required_facts
validate_required_facts rule facts = required_facts (get "required_facts" rule.definition) facts

-- `evt.facts`, or the payload where there are no facts.
unfoldable pub facts_from_event : DigitalTwinEvent → Dict
facts_from_event evt = if truthy (obj evt.facts) then evt.facts else evt.payload
