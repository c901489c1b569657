-- ===== src/Seed/Validate/Seed.antt =====
-- A seed without faults, all its parts together.
use nudging_tool.Prelude.{String, ◌≡◌, refl, ap, subst, ◌∙◌, List, [], ◌∷◌, ◌++◌, map}
use nudging_tool.Json.{Json, Dict, obj}
use nudging_tool.Session.{ok}
use nudging_tool.Seed.Apply.{SeedData}
use nudging_tool.Seed.Kinds.{Models, LoadedSeed}
use nudging_tool.Seed.Validate.{validate_rules, validate_kinds, kinds_or_given, validate_seed}
use nudging_tool.Seed.Validate.Kinds.{AcceptsKinds, validate_kinds-AcceptsKinds}
use nudging_tool.Seed.Validate.Laws.{
  Accepts, AcceptsRules, append_nil_left, append_nil_right, bind_parts, pair_parts,
  validate_items-Accepts, validate_rules-Accepts,
}

-- Every item of the seed is accepted.
abbrev pub AcceptsSeed : Models → List String → LoadedSeed → SeedData → Type 0
AcceptsSeed models known seed out =
    AcceptsRules models known seed.rules out.rules
    × Accepts models.template seed.templates out.templates
    × Accepts models.preference seed.preferences out.preferences
    × Accepts models.override seed.overrides out.overrides
    × ((kinds : List Dict) × AcceptsKinds models seed.active_kinds kinds
        × (out.active_kinds ≡ map obj kinds))

kinds_kept :
    (models : Models) (given : List Json) (kinds : List Dict)
    → AcceptsKinds models given kinds
    → kinds_or_given kinds given ≡ map obj kinds
kinds_kept models given (k ∷ kinds) h = refl
kinds_kept models [] [] h = refl
kinds_kept models (item ∷ given) [] ([], accepted, same, distinct, each) = absurd accepted
kinds_kept models (item ∷ given) [] (k ∷ ks, accepted, same, distinct, each) = cc

all_nil :
    {A : Type 0} (a b c d e : List A)
    → a ++ b ++ c ++ d ++ e ≡ []
    → (a ≡ []) × (b ≡ []) × (c ≡ []) × (d ≡ []) × (e ≡ [])
all_nil a b c d e h =
    let abcd = append_nil_left (a ++ b ++ c ++ d) e h in
    let abc = append_nil_left (a ++ b ++ c) d abcd in
    let ab = append_nil_left (a ++ b) c abc in
    (
      append_nil_left a b ab,
      append_nil_right a b ab,
      append_nil_right (a ++ b) c abc,
      append_nil_right (a ++ b ++ c) d abcd,
      append_nil_right (a ++ b ++ c ++ d) e h,
    )

-- Where `validate_seed` reports no fault, nothing was left out: every rule, template, preference and
-- override is accepted by its model, in its place; the definition of every rule has no fault, with
-- its scenarios merged; and the active kinds are accepted, no two have the same name, and each has
-- its three texts in every language of the interface.
pub validate_seed-AcceptsSeed :
    (models : Models) (known : List String) (seed : LoadedSeed) (out : SeedData)
    → validate_seed models known seed ≡ ok (out, [])
    → AcceptsSeed models known seed out
unfolding validate_seed
validate_seed-AcceptsSeed models known seed out h =
    let (rules, checked, ended) =
      bind_parts (validate_rules models known 0 seed.rules) _ (out, []) h in
    let (same, clean) = pair_parts _ out _ [] ended in
    let (no_kinds, no_rules, no_templates, no_preferences, no_overrides) =
      all_nil _ rules.1 _ _ _ clean in
    let kinds = validate_kinds models [] 0 seed.active_kinds in
    let kinds_accepted = validate_kinds-AcceptsKinds models seed.active_kinds no_kinds in
    subst (AcceptsSeed models known seed) same (
      validate_rules-Accepts models known 0 seed.rules rules.0
          (checked ∙ ap (λ errors. ok (rules.0, errors)) no_rules),
      validate_items-Accepts models.template "templates" 0 seed.templates no_templates,
      validate_items-Accepts models.preference "preferences" 0 seed.preferences no_preferences,
      validate_items-Accepts models.override "overrides" 0 seed.overrides no_overrides,
      (kinds.0, kinds_accepted, kinds_kept models seed.active_kinds kinds.0 kinds_accepted),
    )
