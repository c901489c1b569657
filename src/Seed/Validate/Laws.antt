-- ===== src/Seed/Validate/Laws.antt =====
-- What a seed without faults is.
use nudging_tool.Prelude.{ℕ, ◌+◌, String, ◌≡◌, refl, ap, subst, ◌∙◌, List, [], ◌∷◌, ◌++◌, map, All}
use nudging_tool.Json.{Json, Dict, get}
use nudging_tool.Session.{Result, ok, err}
use nudging_tool.Session.Fallible.{◌>>=◌}
use nudging_tool.Seed.Definition.{validate_rule_definition, merge_scenarios}
use nudging_tool.Seed.Kinds.{Models}
use nudging_tool.Seed.Validate.{
  SeedError, in_item, in_rule, validate_items, accept, validate_rules, accept_rule,
}

-- Each item is accepted, and the results stand in the order of the items.
abbrev pub Accepts : {A B : Type 0} → (A → Result B) → List A → List B → Type 0
Accepts model [] [] = Unit
Accepts model [] (y ∷ ys) = ⊥
Accepts model (x ∷ xs) [] = ⊥
Accepts model (x ∷ xs) (y ∷ ys) = (model x ≡ ok y) × Accepts model xs ys

-- A rule is accepted with its scenarios merged.
abbrev pub rule_of : Models → Json → Result Dict
rule_of models item = models.rule item >>= λ r. ok (merge_scenarios r)

module _ {A : Type 0} where
  pub append_nil_left : (xs ys : List A) → xs ++ ys ≡ [] → xs ≡ []
  append_nil_left [] ys h = refl
  append_nil_left (x ∷ xs) ys h = cc

  pub append_nil_right : (xs ys : List A) → xs ++ ys ≡ [] → ys ≡ []
  append_nil_right [] ys h = h
  append_nil_right (x ∷ xs) ys h = cc

accept-Accepts :
    (model : Json → Result Dict) (collection : String) (i : ℕ) (item : Json) (items : List Json)
    → (r : Result Dict) (rest : List Dict × List SeedError) → model item ≡ r
    → (accept collection i r rest).1 ≡ []
    → (rest.1 ≡ [] → Accepts model items rest.0)
    → Accepts model (item ∷ items) (accept collection i r rest).0
accept-Accepts model collection i item items (ok d) rest e h k = (e, k h)
accept-Accepts model collection i item items (err x) rest e h k = cc

pub validate_items-Accepts :
    (model : Json → Result Dict) (collection : String) (i : ℕ) (items : List Json)
    → (validate_items model collection i items).1 ≡ []
    → Accepts model items (validate_items model collection i items).0
unfolding validate_items
validate_items-Accepts model collection i [] h = tt
validate_items-Accepts model collection i (item ∷ items) h =
    accept-Accepts model collection i item items (model item)
      (validate_items model collection (i + 1) items) refl h
      (validate_items-Accepts model collection (i + 1) items)

pub map_nil : {A B : Type 0} (f : A → B) (xs : List A) → map f xs ≡ [] → xs ≡ []
map_nil f [] h = refl
map_nil f (x ∷ xs) h = cc

-- The rules are accepted, and their definitions have no fault.
abbrev pub AcceptsRules : Models → List String → List Json → List Dict → Type 0
AcceptsRules models known items rules =
    Accepts (rule_of models) items rules
    × All (λ r. validate_rule_definition known (get "definition" r) ≡ ok []) rules

pub bind_parts :
    {A B : Type 0} (r : Result A) (f : A → Result B) (b : B)
    → r >>= f ≡ ok b
    → (a : A) × (r ≡ ok a) × (f a ≡ ok b)
bind_parts (ok a) f b h = (a, refl, h)
bind_parts (err e) f b h = cc

pub pair_parts :
    {A B : Type 0} (a c : A) (b d : B)
    → (let x : Result (A × B) = ok (a, b) in x) ≡ ok (c, d)
    → (a ≡ c) × (b ≡ d)
pair_parts a c b d h = (cc, cc)

accept_rule-AcceptsRules :
    (models : Models) (known : List String) (i : ℕ) (item : Json) (items : List Json)
    → (r : Result Dict) (rest : List Dict × List SeedError) (out : List Dict) → models.rule item ≡ r
    → accept_rule i known r rest ≡ ok (out, [])
    → (rest.1 ≡ [] → AcceptsRules models known items rest.0)
    → AcceptsRules models known (item ∷ items) out
accept_rule-AcceptsRules models known i item items (err x) rest out e h k =
    let (rows, faults) = pair_parts rest.0 out (in_item "rules" i ": refused" ∷ rest.1) [] h in cc
accept_rule-AcceptsRules models known i item items (ok r) rest out e h k =
    let merged = merge_scenarios r in
    let (faults, valid, ended) =
      bind_parts (validate_rule_definition known (get "definition" merged)) _ (out, []) h in
    let (rows, none_left) = pair_parts (merged ∷ rest.0) out _ [] ended in
    let no_faults = map_nil (in_rule i) faults (append_nil_left _ rest.1 none_left) in
    let tail = k (append_nil_right (map (in_rule i) faults) rest.1 none_left) in
    subst (AcceptsRules models known (item ∷ items)) rows
      ((rw e refl, tail.0), (valid ∙ ap ok no_faults, tail.1))

pub validate_rules-Accepts :
    (models : Models) (known : List String) (i : ℕ) (items : List Json) (out : List Dict)
    → validate_rules models known i items ≡ ok (out, [])
    → AcceptsRules models known items out
unfolding validate_rules
validate_rules-Accepts models known i [] out h =
    subst (AcceptsRules models known []) (pair_parts [] out [] [] h).0 (tt, tt)
validate_rules-Accepts models known i (item ∷ items) out h =
    let (rest, before, here) =
      bind_parts (validate_rules models known (i + 1) items) _ (out, []) h in
    accept_rule-AcceptsRules models known i item items (models.rule item) rest out refl here
      (λ clean.
        validate_rules-Accepts models known (i + 1) items rest.0
          (before ∙ ap (λ errors. ok (rest.0, errors)) clean))
