-- ===== src/Engine/Load.antt =====
-- The rule, its template and the override of a community: `_load_rule_and_template` and
-- `_apply_rule_override`. A loaded rule is a row of the session: what is assigned to it is written
-- by the next commit.
use nudging_tool.Prelude.{
  String, ◌<>◌, Bool, ◌&&◌, Option, none, some, List, [], ◌∷◌, map, ◌==◌, select, if◌then◌else◌,
}
use nudging_tool.Json.{obj, truthy}
use nudging_tool.Json.Merge.{deep_merge}
use nudging_tool.Db.{Rule, RuleOverride, Template, Db}
use nudging_tool.Session.{
  Exec, value_error, pure, raise, lift, query, modify, scalar_one_or_none, ◌>>=◌, ◌>>◌,
}

abbrev pub enabled_rules : String → Db → List Rule
enabled_rules rule_id db = select (λ r. (r.id == rule_id) && r.enabled) db.rules

abbrev pub templates_for : String → String → Db → List Template
templates_for rule_id lang db =
    select (λ t. (t.rule_id == rule_id) && (t.lang == lang)) db.templates

abbrev pub overrides_for : String → String → Db → List RuleOverride
overrides_for rule_id community_id db =
    select (λ o. (o.rule_id == rule_id) && (o.community_id == community_id)) db.overrides

-- The `for try_lang in (lang, "en")` loop.
unfoldable pub first_template : String → List String → Exec (Option Template)
first_template rule_id [] = pure none
first_template rule_id (try_lang ∷ langs) = do
  rows ← query (templates_for rule_id try_lang)
  tmpl ← lift (scalar_one_or_none rows)
  elim tmpl [ some t ↦ pure (some t) | none ↦ first_template rule_id langs ]

unfoldable pub load_rule_and_template : String → String → Exec (Rule × Template)
unfolding first_template
load_rule_and_template rule_id lang = do
  rows ← query (enabled_rules rule_id)
  found ← lift (scalar_one_or_none rows)
  elim found [
    | none ↦ raise (value_error ("Rule not found or disabled: " <> rule_id))
    | some rule ↦ do
      tmpl ← first_template rule_id (lang ∷ "en" ∷ [])
      elim tmpl [
        | some t ↦ pure (rule, t)
        | none ↦ raise (value_error ("No template found for rule=" <> rule_id <> " lang=" <> lang))
      ]
  ]

-- The row of a rule after an assignment to its attributes.
abbrev pub store_rule : Rule → Db → Db
store_rule rule db = record db { rules = map (λ r. if r.id == rule.id then rule else r) db.rules }

abbrev pub enabled_after : Option Bool → Bool → Bool
enabled_after none enabled = enabled
enabled_after (some b) enabled = b

-- The rule with the attributes that the override assigns.
unfoldable pub override_rule : Rule → RuleOverride → Rule
override_rule rule o = record rule {
  enabled = enabled_after o.enabled_override rule.enabled;
  definition =
      if truthy (obj o.definition_override)
      then deep_merge rule.definition o.definition_override
      else rule.definition;
}

unfoldable pub override_for_community : Rule → String → Exec Rule
unfolding override_rule
override_for_community rule community = do
  rows ← query (overrides_for rule.id community)
  found ← lift (scalar_one_or_none rows)
  elim found [
    | none ↦ pure rule
    | some o ↦ modify (store_rule (override_rule rule o)) >> pure (override_rule rule o)
  ]

-- The second part of the source's result, a remark that its caller drops, is left out.
unfoldable pub apply_rule_override : Rule → Option String → Exec Rule
unfolding override_for_community
apply_rule_override rule none = pure rule
apply_rule_override rule (some String.[]) = pure rule
apply_rule_override rule (some (String.◌∷◌ c s)) = override_for_community rule (String.◌∷◌ c s)
