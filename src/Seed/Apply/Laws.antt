-- ===== src/Seed/Apply/Laws.antt =====
-- Seeds applied again, and what a seed that fails leaves.
use nudging_tool.Prelude.{String, ◌≡◌, refl, sym, ap, subst, ◌∙◌, Option, none, some, List}
use nudging_tool.Json.{Dict}
use nudging_tool.Db.{Db}
use nudging_tool.Session.{
  Session, Result, ok, pure, query, commit, raise, violation, commit_checked, ◌>>=◌,
}
use nudging_tool.Session.Bind.{bind-ok, bind_parts}
use nudging_tool.Env.{Env}
use nudging_tool.Seed.Columns.{Columns}
use nudging_tool.Seed.Table.{upsert_all}
use nudging_tool.Seed.Table.Repeat.{upsert_all_again}
use nudging_tool.Seed.Items.{rule_table, template_table, preference_table, override_table}
use nudging_tool.Seed.Items.Laws.{
  rule_table-IsTable, template_table-IsTable, preference_table-IsTable, override_table-IsTable,
}
use nudging_tool.Seed.Apply.Phases.{upsert_seed-Phases}
use nudging_tool.Seed.Apply.{
  SeedApplyRequest, SeedApplyResponse, seed_violation, refuse, commit_seed, upsert_seed, seed_apply,
}

-- A commit that succeeds makes the rows durable, and again changes nothing.
pub commit_seed_again :
    (s t : Session)
    → commit_seed s ≡ (ok tt, t)
    → (t.working ≡ s.working) × (commit_seed t ≡ (ok tt, t))
unfolding commit_seed query ◌>>=◌ commit pure raise
commit_seed_again s t h = go (seed_violation s.working) refl h
  where
    end :
        (v : Option String)
        → seed_violation s.working ≡ none
        → violation s.working ≡ v
        → commit_checked v s ≡ (ok tt, t)
        → (t.working ≡ s.working) × (commit_seed t ≡ (ok tt, t))
    end none e1 e2 h =
        let same = ap (λ (o : Result Unit × Session). o.1) h in
        (
          ap (λ (x : Session). x.working) (sym same),
          subst (λ x. commit_seed x ≡ (ok tt, x)) same (rw (e1, e2) refl),
        )
    end (some c) e1 e2 h = cc

    go :
        (b : Option String)
        → seed_violation s.working ≡ b
        → (refuse b >>= (λ _. commit)) s ≡ (ok tt, t)
        → (t.working ≡ s.working) × (commit_seed t ≡ (ok tt, t))
    go none e h = end (violation s.working) e refl h
    go (some c) e h = cc

module _ (env : Env) (columns : Columns) where
  upsert_seed_again :
      (rules templates preferences overrides : List Dict) (s t : Session)
      → upsert_seed env columns rules templates preferences overrides s ≡ (ok tt, t)
      → upsert_seed env columns rules templates preferences overrides t ≡ (ok tt, t)
  unfolding upsert_seed
  upsert_seed_again rules templates preferences overrides s t h =
      let f = upsert_seed-Phases env columns rules templates preferences overrides s t h in
      let (kept, done) = commit_seed_again f.with_overrides t f.commit_done in
      bind-ok (upsert_all (rule_table columns) rules) _ t tt t (
        upsert_all_again (rule_table columns) (rule_table-IsTable columns) rules s f.with_rules t
          f.rules_done (ap (λ (db : Db). db.rules) kept ∙ f.rules_kept))
      ∙ bind-ok (upsert_all (template_table env columns) templates) _ t tt t (
          upsert_all_again (template_table env columns) (template_table-IsTable env columns)
            templates f.with_rules f.with_templates t f.templates_done
            (ap (λ (db : Db). db.templates) kept ∙ f.templates_kept))
      ∙ bind-ok (upsert_all (preference_table env columns) preferences) _ t tt t (
          upsert_all_again (preference_table env columns) (preference_table-IsTable env columns)
            preferences f.with_templates f.with_preferences t f.preferences_done
            (ap (λ (db : Db). db.preferences) kept ∙ f.preferences_kept))
      ∙ bind-ok (upsert_all (override_table columns) overrides) _ t tt t (
          upsert_all_again (override_table columns) (override_table-IsTable columns) overrides
            f.with_preferences f.with_overrides t f.overrides_done
            (ap (λ (db : Db). db.overrides) kept))
      ∙ done

  -- A seed that was applied, applied again to the session that it left, succeeds with the same
  -- answer and changes nothing of that session: neither rows, nor durable rows, nor ids drawn.
  pub seed_apply_again :
      (body : SeedApplyRequest) (response : SeedApplyResponse) (s t : Session)
      → seed_apply env columns body s ≡ (ok response, t)
      → seed_apply env columns body t ≡ (ok response, t)
  unfolding seed_apply pure
  seed_apply_again body response s t h =
      let (a, u, applied, rest) =
        bind_parts
          (upsert_seed env columns body.rules body.templates body.preferences body.overrides) _ s
          response t h in
      let same = ap (λ (o : Result SeedApplyResponse × Session). o.1) rest in
      bind-ok (upsert_seed env columns body.rules body.templates body.preferences body.overrides) _
        t tt t
        (upsert_seed_again body.rules body.templates body.preferences body.overrides s t (
          subst
            (λ x.
              upsert_seed env columns body.rules body.templates body.preferences body.overrides s
              ≡ (ok tt, x))
            same applied))
      ∙ ap (λ (o : Result SeedApplyResponse × Session). (o.0, t)) rest
