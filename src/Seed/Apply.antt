-- ===== src/Seed/Apply.antt =====
-- What applies a seed: `seed_apply` of api/routes/admin/seed.py, `main` of db/seed_db.py, and
-- `auto_seed` of db/auto_seed.py.
pub mod Applied
pub mod Durable
pub mod Laws
pub mod Phases
pub mod Readable
pub mod Startup
use nudging_tool.Prelude.{
  ℕ, String, Bool, true, false, not, ◌&&◌, ◌||◌, Option, none, some, List, [], ◌∷◌, map, all,
  is_nil, length, contains, has_duplicate, truthy_text, if◌then◌else◌,
}
use nudging_tool.Json.{Json, Dict}
use nudging_tool.Db.{Rule, RuleOverride, Template, Db}
use nudging_tool.Session.{
  Result, Exec, integrity_error, system_exit, pure, raise, lift, query, commit, ◌>>=◌, ◌>>◌,
}
use nudging_tool.Env.{Env}
use nudging_tool.Seed.Columns.{Columns}
use nudging_tool.Seed.Table.{upsert_all}
use nudging_tool.Seed.Items.{rule_table, template_table, preference_table, override_table}

-- `SeedData` of seed/loader.py.
pub record SeedData : Type 0 where
  pub rules : List Dict
  pub templates : List Dict
  pub preferences : List Dict
  pub overrides : List Dict
  pub active_kinds : List Json

pub record SeedApplyRequest : Type 0 where
  pub rules : List Dict
  pub templates : List Dict
  pub preferences : List Dict
  pub overrides : List Dict

pub record SeedApplyResponse : Type 0 where
  pub status : String
  pub rules : ℕ
  pub templates : ℕ
  pub preferences : ℕ
  pub overrides : ℕ

abbrev pub seed_counts : SeedApplyRequest → SeedApplyResponse
seed_counts body = record {
  status = "ok";
  rules = length body.rules;
  templates = length body.templates;
  preferences = length body.preferences;
  overrides = length body.overrides;
}

-- Whether the rule that a row refers to is there.
abbrev refers : Db → String → Bool
refers db rule_id = contains rule_id (map (λ (r : Rule). r.id) db.rules)

-- The first constraint that the rows of a seed break: the primary key of a template, whose id an
-- item may give, and the foreign keys.
unfoldable pub seed_violation : Db → Option String
seed_violation db =
    if has_duplicate (map (λ (t : Template). t.id) db.templates)
    then some "templates_pkey"
    else if not (all (λ (t : Template). refers db t.rule_id) db.templates)
    then some "templates_rule_id_fkey"
    else if not (all (λ (o : RuleOverride). refers db o.rule_id) db.overrides)
    then some "rule_overrides_rule_id_fkey"
    else none

abbrev pub refuse : Option String → Exec Unit
refuse none = pure tt
refuse (some c) = raise (integrity_error c)

-- `await db.commit()`, after the upserts. The driver may report a broken constraint earlier, with
-- the flush before a later query: the exception and the rows that are kept are the same.
unfoldable pub commit_seed : Exec Unit
commit_seed = do broken ← query seed_violation; refuse broken; commit

-- `seed_dir` of the settings, if it is set and there.
abbrev pub seed_dir_of : (String → Bool) → Option String → Option String
seed_dir_of exists none = none
seed_dir_of exists (some dir) =
    if not (truthy_text (some dir)) || not (exists dir) then none else some dir

module _ (env : Env) (columns : Columns) where
  -- The loops over the rules, the templates, the preferences and the overrides.
  unfoldable pub upsert_seed : (rules templates preferences overrides : List Dict) → Exec Unit
  upsert_seed rules templates preferences overrides = do
    upsert_all (rule_table columns) rules
    upsert_all (template_table env columns) templates
    upsert_all (preference_table env columns) preferences
    upsert_all (override_table columns) overrides
    commit_seed

  unfoldable pub seed_apply : SeedApplyRequest → Exec SeedApplyResponse
  unfolding upsert_seed
  seed_apply body = do
    upsert_seed body.rules body.templates body.preferences body.overrides
    pure (seed_counts body)

  -- A seed with errors is refused as a whole.
  abbrev apply_valid : {E : Type 0} → SeedData × List E → Exec Unit
  apply_valid checked =
      if is_nil checked.1
      then upsert_seed checked.0.rules checked.0.templates checked.0.preferences checked.0.overrides
      else raise (system_exit 1)

  -- `main`, from the seed that was loaded and what its validation makes of it.
  unfoldable pub seed_main :
      {Raw E : Type 0} → Result Raw → (Raw → Result (SeedData × List E)) → Exec Unit
  unfolding upsert_seed
  seed_main loaded validate = do
    seed ← lift loaded
    checked ← lift (validate seed)
    apply_valid checked

  -- The seed at the start of the application has no overrides.
  unfoldable pub apply_startup : SeedData → Exec Unit
  apply_startup seeds =
      if is_nil seeds.rules && is_nil seeds.templates && is_nil seeds.preferences
      then pure tt
      else (do
        upsert_all (rule_table columns) seeds.rules
        upsert_all (template_table env columns) seeds.templates
        upsert_all (preference_table env columns) seeds.preferences
        commit_seed)

  abbrev seed_from : (String → Result SeedData) → Option String → Exec Unit
  seed_from load none = pure tt
  seed_from load (some dir) = do seeds ← lift (load dir); apply_startup seeds

  -- `auto_seed`, from what is a directory and what loading one gives.
  unfoldable pub auto_seed : (String → Bool) → (String → Result SeedData) → Exec Unit
  unfolding apply_startup
  auto_seed exists load = seed_from load (seed_dir_of exists env.settings.seed_dir)
