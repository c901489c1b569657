-- ===== src/Engine/Facts/Laws.antt =====
-- The checks on the facts of an event.
use nudging_tool.Prelude.{
  String, ◌≡◌, refl, true, not, List, [], ◌∷◌, select, arith, Bool-cases, inl, inr,
}
use nudging_tool.Json.{Json, Dict, str, arr, get, has, of_texts, truthy}
use nudging_tool.Db.{Rule}
use nudging_tool.Session.{ok}
use nudging_tool.Engine.Facts.{
  is_filled_text, check_facts_contract, validate_facts_contract, missing_facts, required_facts,
  validate_required_facts,
}

missing_facts-of_texts :
    (ks : List String) (facts : Dict)
    → missing_facts (of_texts ks) facts ≡ ok (of_texts (select (λ k. not (has k facts)) ks))
unfolding missing_facts
missing_facts-of_texts [] facts = refl
missing_facts-of_texts (k ∷ ks) facts = elim (Bool-cases (has k facts)) [
  | inl there ↦ rw (missing_facts-of_texts ks facts, there) refl
  | inr missing ↦ rw (missing_facts-of_texts ks facts, missing) refl
]

-- Where a rule lists the names of the facts that it requires, those reported as missing are exactly
-- the names that are no key of the facts, in the order of the list; a fact whose value is `None` or
-- empty is not missing.
pub validate_required_facts-of_texts :
    (rule : Rule) (facts : Dict) (ks : List String)
    → get "required_facts" rule.definition ≡ arr (of_texts ks)
    → validate_required_facts rule facts ≡ ok (of_texts (select (λ k. not (has k facts)) ks))
unfolding validate_required_facts required_facts
validate_required_facts-of_texts rule facts [] h = rw h refl
validate_required_facts-of_texts rule facts (k ∷ ks) h =
    rw h (missing_facts-of_texts (k ∷ ks) facts)

filled-truthy : (v : Json) → is_filled_text v ≡ true → truthy v ≡ true
filled-truthy (str s) h = h
filled-truthy _ h = cc

-- What the engine accepts, the routes accept: they ask only for true values, and the engine for
-- texts.
pub check_facts_contract-validate :
    (facts : Dict)
    → (check_facts_contract facts).0 ≡ true
    → (validate_facts_contract facts).ok ≡ true
unfolding check_facts_contract validate_facts_contract
check_facts_contract-validate facts h =
    ground (arith, filled-truthy (get "facts_version" facts), filled-truthy (get "scenario" facts))
