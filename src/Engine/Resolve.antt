-- ===== src/Engine/Resolve.antt =====
-- Which rules an event concerns, and in which language its user reads: `_resolve_rule_ids_from_db`,
-- `_resolve_rule_ids_from_scenario`, `_filter_rule_ids_by_definition` and `_resolve_lang`.
pub mod Laws
use nudging_tool.Prelude.{
  String, Bool, true, false, not, ◌&&◌, ◌||◌, Option, none, some, List, [], ◌∷◌, ◌++◌, map, ◌==◌,
  contains, select, is_empty, if◌then◌else◌,
}
use nudging_tool.Text.{lower, strip}
use nudging_tool.Json.{Json, Dict, str, or_else, text_of, texts_of, get}
use nudging_tool.Db.{Rule, UserPreference, Db}
use nudging_tool.Session.{Exec, pure, query, lift, scalar_one_or_none, ◌>>=◌}
use nudging_tool.Env.{Env}

-- Equality of optional columns as SQL and Python see it here: `NULL = x` selects no row, and
-- SQLAlchemy turns `column == None` into `IS NULL`.
abbrev pub same_option : Option String → Option String → Bool
same_option none none = true
same_option (some a) (some b) = a == b
same_option _ _ = false

abbrev pub is_null : Option String → Bool
is_null none = true
is_null (some _) = false

-- The scenarios of a rule: those of the column, then those of the definition.
unfoldable pub rule_scenarios : Rule → List String
rule_scenarios rule = texts_of rule.scenarios ++ texts_of (get "scenarios" rule.definition)

unfoldable pub resolve_rule_ids_from_db : Db → String → List String
unfolding rule_scenarios
resolve_rule_ids_from_db db scenario =
    if is_empty scenario
    then []
    else map (λ r. r.id) (select (λ r. r.enabled && contains scenario (rule_scenarios r)) db.rules)

abbrev lookup_rule_ids : String → List (String × List String) → Option (List String)
lookup_rule_ids k [] = none
lookup_rule_ids k ((j, v) ∷ m) = if j == k then some v else lookup_rule_ids k m

module _ (env : Env) where
  -- `Settings` has no SCENARIO_TO_RULE_ID, so the `getattr` for it gives `None`.
  unfoldable pub resolve_rule_ids_from_scenario : String → List String
  resolve_rule_ids_from_scenario scenario =
      elim (lookup_rule_ids scenario env.settings.scenario_to_rule_ids) [
        | some ids ↦ select (λ x. not (is_empty x)) ids
        | none ↦ if is_empty scenario then [] else scenario ∷ []
      ]

  -- `str((definition or {}).get("dedup_window") or "").lower() == wanted`
  abbrev pub has_window : String → Rule → Bool
  has_window wanted rule =
      lower env.lower_other
        (text_of env.repr (or_else (get "dedup_window" rule.definition) (str "")))
      == wanted

  unfoldable pub filter_rule_ids_by_definition : Db → List String → String → List String
  filter_rule_ids_by_definition db rule_ids frequency =
      map (λ r. r.id)
        (select
          (λ r.
            contains r.id rule_ids
            && r.enabled
            && has_window (strip (lower env.lower_other frequency)) r)
          db.rules)

  -- The preferences of a user for a community, the community's own before the general one.
  unfoldable pub preferences_of : Db → String → Option String → List UserPreference
  preferences_of db user_id community_id =
      let mine =
        select
          (λ (p : UserPreference).
            (p.user_id == user_id)
            && (same_option p.community_id community_id || is_null p.community_id))
          db.preferences in
      select (λ p. not (is_null p.community_id)) mine ++ select (λ p. is_null p.community_id) mine

  abbrev pub lang_of : Option UserPreference → String
  lang_of none = env.settings.default_lang
  lang_of (some p) = if is_empty p.lang then env.settings.default_lang else p.lang

  -- The language of the user's preference.
  abbrev pub preferred_lang : String → Option String → Exec String
  preferred_lang user_id community_id = do
    rows ← query (λ db. preferences_of db user_id community_id)
    pref ← lift (scalar_one_or_none rows)
    pure (lang_of pref)

  -- A text of the facts that is not empty goes first.
  abbrev pub filled_or : Json → Exec String → Exec String
  filled_or (str (String.◌∷◌ c s)) other = pure (String.◌∷◌ c s)
  filled_or _ other = other

  unfoldable pub resolve_lang : String → Option String → Dict → Exec String
  unfolding preferences_of
  resolve_lang user_id community_id facts =
      filled_or (get "lang" facts) (preferred_lang user_id community_id)
