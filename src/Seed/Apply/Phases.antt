-- ===== src/Seed/Apply/Phases.antt =====
-- The parts of an applied seed: what each of its loops and its commit did.
use nudging_tool.Prelude.{◌≡◌, refl, ◌∙◌, List}
use nudging_tool.Json.{Dict}
use nudging_tool.Session.{Session, ok}
use nudging_tool.Session.Bind.{bind_parts}
use nudging_tool.Env.{Env}
use nudging_tool.Seed.Columns.{Columns}
use nudging_tool.Seed.Table.{upsert_all}
use nudging_tool.Seed.Table.Repeat.{upsert_all-kept}
use nudging_tool.Seed.Items.{rule_table, template_table, preference_table, override_table}
use nudging_tool.Seed.Items.Laws.{
  template_table-IsTable, preference_table-IsTable, override_table-IsTable,
}
use nudging_tool.Seed.Apply.{commit_seed, upsert_seed}

module _ (env : Env) (columns : Columns) where
  -- The sessions between the loops; each loop's rows are still those of the end.
  pub record Phases (rules templates preferences overrides : List Dict) (s t : Session)
      : Type 0 where
    pub with_rules : Session
    pub with_templates : Session
    pub with_preferences : Session
    pub with_overrides : Session
    pub rules_done : upsert_all (rule_table columns) rules s ≡ (ok tt, with_rules)
    pub templates_done :
        upsert_all (template_table env columns) templates with_rules ≡ (ok tt, with_templates)
    pub preferences_done :
        upsert_all (preference_table env columns) preferences with_templates
        ≡ (ok tt, with_preferences)
    pub overrides_done :
        upsert_all (override_table columns) overrides with_preferences ≡ (ok tt, with_overrides)
    pub commit_done : commit_seed with_overrides ≡ (ok tt, t)
    pub rules_kept : with_overrides.working.rules ≡ with_rules.working.rules
    pub templates_kept : with_overrides.working.templates ≡ with_templates.working.templates
    pub preferences_kept : with_overrides.working.preferences ≡ with_preferences.working.preferences

  pub upsert_seed-Phases :
      (rules templates preferences overrides : List Dict) (s t : Session)
      → upsert_seed env columns rules templates preferences overrides s ≡ (ok tt, t)
      → Phases rules templates preferences overrides s t
  unfolding upsert_seed
  upsert_seed-Phases rules templates preferences overrides s t h =
      let T = template_table-IsTable env columns in
      let P = preference_table-IsTable env columns in
      let O = override_table-IsTable columns in
      let (a, s1, r1, h1) = bind_parts (upsert_all (rule_table columns) rules) _ s tt t h in
      let (b, s2, r2, h2) =
        bind_parts (upsert_all (template_table env columns) templates) _ s1 tt t h1 in
      let (c, s3, r3, h3) =
        bind_parts (upsert_all (preference_table env columns) preferences) _ s2 tt t h2 in
      let (d, s4, r4, h4) =
        bind_parts (upsert_all (override_table columns) overrides) _ s3 tt t h3 in
      record {
        with_rules = s1;
        with_templates = s2;
        with_preferences = s3;
        with_overrides = s4;
        rules_done = r1;
        templates_done = r2;
        preferences_done = r3;
        overrides_done = r4;
        commit_done = h4;
        rules_kept =
            upsert_all-kept (override_table columns) O (λ db. db.rules) (λ xs db. refl) overrides s3
              s4 r4
            ∙ upsert_all-kept (preference_table env columns) P (λ db. db.rules) (λ xs db. refl)
                preferences s2 s3 r3
            ∙ upsert_all-kept (template_table env columns) T (λ db. db.rules) (λ xs db. refl)
                templates s1 s2 r2;
        templates_kept =
            upsert_all-kept (override_table columns) O (λ db. db.templates) (λ xs db. refl)
              overrides s3 s4 r4
            ∙ upsert_all-kept (preference_table env columns) P (λ db. db.templates) (λ xs db. refl)
                preferences s2 s3 r3;
        preferences_kept =
            upsert_all-kept (override_table columns) O (λ db. db.preferences) (λ xs db. refl)
              overrides s3 s4 r4;
      }
