-- ===== src/Engine/Evaluate.antt =====
-- `evaluate_rule` of engine/rules/evaluators/registry.py, and `render` of
-- engine/templates/renderer.py. Loading a module is a parameter, as `load_path` and `load_module`
-- of `Env`; the cache of loaded evaluators is a part of `load_path`.
use nudging_tool.Prelude.{String, Bool, false, Option, none, some, ◌==◌, if◌then◌else◌}
use nudging_tool.Json.{Json, Dict, str, get}
use nudging_tool.Db.{Rule, Template}
use nudging_tool.Session.{Result, ok, err}
use nudging_tool.Env.{Env, Evaluator}

-- A filled text of the definition, or none.
abbrev pub filled_text : Json → Option String
filled_text (str (String.◌∷◌ c s)) = some (String.◌∷◌ c s)
filled_text _ = none

abbrev pub text_or : String → Option String → String
text_or d none = d
text_or d (some String.[]) = d
text_or d (some (String.◌∷◌ c s)) = String.◌∷◌ c s

-- `return False, dict(facts), reason`
abbrev pub not_evaluated : Dict → String → Result (Bool × Dict × Option String)
not_evaluated facts reason = ok (false, facts, some reason)

abbrev pub run_evaluator :
    Option Evaluator → String → Rule → Dict → Result (Bool × Dict × Option String)
run_evaluator none reason rule facts = not_evaluated facts reason
run_evaluator (some fn) reason rule facts = fn rule facts

module _ (env : Env) where
  -- Where the evaluator of a rule lies: a bare file name lies in the folder of the rule.
  unfoldable pub evaluator_path : Rule → String → String
  evaluator_path rule path =
      let seed_dir = text_or "./seed" env.settings.seed_dir in
      if env.path_is_absolute path
      then path
      else if env.path_name path == path
      then env.path_join (env.path_join (env.path_join seed_dir "rules") rule.id) path
      else env.path_join seed_dir path

  evaluate_by_module : Option String → Rule → Dict → Result (Bool × Dict × Option String)
  evaluate_by_module none rule facts = not_evaluated facts "evaluator_not_configured"
  evaluate_by_module (some path) rule facts =
      run_evaluator (env.load_module path) "evaluator_module_not_found" rule facts

  evaluate_by_path : Option String → Rule → Dict → Result (Bool × Dict × Option String)
  unfolding evaluator_path evaluate_by_module
  evaluate_by_path none rule facts =
      evaluate_by_module (filled_text (get "evaluator_module" rule.definition)) rule facts
  evaluate_by_path (some path) rule facts =
      run_evaluator (env.load_path (evaluator_path rule path)) "evaluator_path_not_found" rule facts

  unfoldable pub evaluate_rule : Rule → Dict → Result (Bool × Dict × Option String)
  unfolding evaluate_by_path
  evaluate_rule rule facts =
      evaluate_by_path (filled_text (get "evaluator_path" rule.definition)) rule facts

  unfoldable pub render : Template → Dict → Result (String × String)
  render tmpl ctx = elim (env.jinja tmpl.title_jinja ctx) [
    | err e ↦ err e
    | ok title ↦ elim (env.jinja tmpl.body_jinja ctx) [ err e ↦ err e | ok body ↦ ok (title, body) ]
  ]
