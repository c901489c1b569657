-- ===== src/Seed/Apply/Readable.antt =====
-- A seed whose items can be read reaches its commit.
use nudging_tool.Prelude.{
  ◌+◌, List, String, ◌≡◌, refl, sym, ap, subst, ◌∙◌, ◌⊎◌, inl, inr, [], All, Option-cases,
}
use nudging_tool.Json.{Dict}
use nudging_tool.Db.{Db}
use nudging_tool.Session.{
  Session, ok, err, integrity_error, pure, raise, query, commit, violation, ◌>>=◌,
}
use nudging_tool.Session.Bind.{bind-ok, bind-err}
use nudging_tool.Env.{Env}
use nudging_tool.Seed.Columns.{Columns}
use nudging_tool.Seed.Table.{upsert_all}
use nudging_tool.Seed.Table.Readable.{IsReadable, IsUnique, upsert_all_ok}
use nudging_tool.Seed.Table.Repeat.{upsert_all-kept}
use nudging_tool.Seed.Items.{rule_table, template_table, preference_table, override_table}
use nudging_tool.Seed.Items.Laws.{
  rule_table-IsTable, template_table-IsTable, preference_table-IsTable, override_table-IsTable,
}
use nudging_tool.Seed.Apply.{
  SeedApplyRequest, seed_counts, seed_violation, commit_seed, upsert_seed, seed_apply,
}

commit_seed_cases :
    (s : Session)
    → ((t : Session) × (commit_seed s ≡ (ok tt, t)))
      ⊎ ((c : String) × (t : Session) × (commit_seed s ≡ (err (integrity_error c), t)))
unfolding commit_seed query ◌>>=◌ commit pure raise
commit_seed_cases s = elim (Option-cases (seed_violation s.working)) [
  | inl e ↦ elim (Option-cases (violation s.working)) [
    | inl e' ↦ inl (record s { committed = s.working }, rw (e, e') refl)
    | inr (c, e') ↦ inr (c, record s { rollbacks = s.rollbacks + 1 }, rw (e, e') refl)
  ]
  | inr (c, e) ↦ inr (c, s, rw e refl)
]

module _ (env : Env) (columns : Columns) where
  -- The items of a seed can be read and stored, and no key has two rows before.
  pub record IsReady (body : SeedApplyRequest) (s : Session) : Type 0 where
    pub rules : All (IsReadable (rule_table columns) (rule_table-IsTable columns)) body.rules
    pub templates :
        All
          (IsReadable (template_table env columns) (template_table-IsTable env columns))
          body.templates
    pub preferences :
        All
          (IsReadable (preference_table env columns) (preference_table-IsTable env columns))
          body.preferences
    pub overrides :
        All (IsReadable (override_table columns) (override_table-IsTable columns)) body.overrides
    pub rules_unique : IsUnique (rule_table columns) (rule_table-IsTable columns) s.working.rules
    pub templates_unique :
        IsUnique
          (template_table env columns)
          (template_table-IsTable env columns)
          s.working.templates
    pub preferences_unique :
        IsUnique
          (preference_table env columns)
          (preference_table-IsTable env columns)
          s.working.preferences
    pub overrides_unique :
        IsUnique (override_table columns) (override_table-IsTable columns) s.working.overrides

  -- The loops from the overrides back to the rules, each reaching the commit.
  overrides_reach :
      (overrides : List Dict) (s : Session)
      → All (IsReadable (override_table columns) (override_table-IsTable columns)) overrides
      → IsUnique (override_table columns) (override_table-IsTable columns) s.working.overrides
      → (u : Session) × ((upsert_all (override_table columns) overrides >>= λ _. commit_seed) s
          ≡ commit_seed u)
  overrides_reach overrides s ready unique =
      let (t, done, unique') =
        upsert_all_ok (override_table columns) (override_table-IsTable columns) overrides s ready
          unique in
      (t, bind-ok (upsert_all (override_table columns) overrides) _ s tt t done)

  preferences_reach :
      (preferences overrides : List Dict) (s : Session)
      → All
          (IsReadable (preference_table env columns) (preference_table-IsTable env columns))
          preferences
      → All (IsReadable (override_table columns) (override_table-IsTable columns)) overrides
      → IsUnique
          (preference_table env columns)
          (preference_table-IsTable env columns)
          s.working.preferences
      → IsUnique (override_table columns) (override_table-IsTable columns) s.working.overrides
      → (u : Session) × ((upsert_all (preference_table env columns) preferences >>= λ _.
              upsert_all (override_table columns) overrides >>= λ _. commit_seed)
            s
          ≡ commit_seed u)
  preferences_reach preferences overrides s ready ready' unique unique_overrides =
      let P = preference_table-IsTable env columns in
      let (t, done, unique') =
        upsert_all_ok (preference_table env columns) P preferences s ready unique in
      let kept =
        upsert_all-kept (preference_table env columns) P (λ db. db.overrides) (λ xs db. refl)
          preferences s t done in
      let (u, reached) = overrides_reach overrides t ready' (
        subst (IsUnique (override_table columns) (override_table-IsTable columns)) (sym kept)
          unique_overrides) in
      (u, bind-ok (upsert_all (preference_table env columns) preferences) _ s tt t done ∙ reached)

  templates_reach :
      (templates preferences overrides : List Dict) (s : Session)
      → All (IsReadable (template_table env columns) (template_table-IsTable env columns)) templates
      → All
          (IsReadable (preference_table env columns) (preference_table-IsTable env columns))
          preferences
      → All (IsReadable (override_table columns) (override_table-IsTable columns)) overrides
      → IsUnique
          (template_table env columns)
          (template_table-IsTable env columns)
          s.working.templates
      → IsUnique
          (preference_table env columns)
          (preference_table-IsTable env columns)
          s.working.preferences
      → IsUnique (override_table columns) (override_table-IsTable columns) s.working.overrides
      → (u : Session) × ((upsert_all (template_table env columns) templates >>= λ _.
              upsert_all (preference_table env columns) preferences >>= λ _.
              upsert_all (override_table columns) overrides >>= λ _. commit_seed)
            s
          ≡ commit_seed u)
  templates_reach templates preferences overrides s r1 r2 r3 u1 u2 u3 =
      let T = template_table-IsTable env columns in
      let (t, done, unique') = upsert_all_ok (template_table env columns) T templates s r1 u1 in
      let kept =
        upsert_all-kept (template_table env columns) T (λ db. db.preferences) (λ xs db. refl)
          templates s t done in
      let kept' =
        upsert_all-kept (template_table env columns) T (λ db. db.overrides) (λ xs db. refl)
          templates s t done in
      let (u, reached) =
        preferences_reach preferences overrides t r2 r3
          (subst (IsUnique (preference_table env columns) (preference_table-IsTable env columns))
            (sym kept) u2)
          (subst (IsUnique (override_table columns) (override_table-IsTable columns)) (sym kept')
            u3) in
      (u, bind-ok (upsert_all (template_table env columns) templates) _ s tt t done ∙ reached)

  upsert_seed_reaches :
      (body : SeedApplyRequest) (s : Session)
      → IsReady body s
      → (u : Session) × (upsert_seed env columns body.rules body.templates body.preferences
            body.overrides s
          ≡ commit_seed u)
  unfolding upsert_seed
  upsert_seed_reaches body s ready =
      let R = rule_table-IsTable columns in
      let (t, done, unique') =
        upsert_all_ok (rule_table columns) R body.rules s ready.rules ready.rules_unique in
      let kept =
        upsert_all-kept (rule_table columns) R (λ db. record db { rules = [] }) (λ xs db. refl)
          body.rules s t done in
      let (u, reached) =
        templates_reach body.templates body.preferences body.overrides t ready.templates
          ready.preferences ready.overrides
          (subst (IsUnique (template_table env columns) (template_table-IsTable env columns))
            (sym (ap (λ (db : Db). db.templates) kept)) ready.templates_unique)
          (subst (IsUnique (preference_table env columns) (preference_table-IsTable env columns))
            (sym (ap (λ (db : Db). db.preferences) kept)) ready.preferences_unique)
          (subst (IsUnique (override_table columns) (override_table-IsTable columns))
            (sym (ap (λ (db : Db). db.overrides) kept)) ready.overrides_unique) in
      (u, bind-ok (upsert_all (rule_table columns) body.rules) _ s tt t done ∙ reached)

  -- A seed whose items can all be read and stored, on tables without two rows of a key, ends in one of two
  -- ways: it answers with the numbers of its items, or the database refuses its rows with an `IntegrityError`.
  pub seed_apply_ends :
      (body : SeedApplyRequest) (s : Session)
      → IsReady body s
      → ((t : Session) × (seed_apply env columns body s ≡ (ok (seed_counts body), t)))
        ⊎ ((c : String) × (t : Session) × (seed_apply env columns body s
              ≡ (err (integrity_error c), t)))
  unfolding seed_apply pure
  seed_apply_ends body s ready =
      let all = upsert_seed env columns body.rules body.templates body.preferences body.overrides in
      let (u, reached) = upsert_seed_reaches body s ready in
      elim (commit_seed_cases u) [
        | inl (t, e) ↦ inl (t, bind-ok all _ s tt t (reached ∙ e))
        | inr (c, t, e) ↦ inr (c, t, bind-err all _ s (integrity_error c) t (reached ∙ e))
      ]
