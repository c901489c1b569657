-- ===== src/Seed/Tests.antt =====
-- The seed at concrete inputs.
use nudging_tool.Prelude.{
  String, ◌≡◌, refl, Bool, true, ◌&&◌, ◌==◌, [], ◌∷◌, ◌≤◌, ◌⊎◌, map, length, select, arith,
}
use nudging_tool.Db.{Rule, Template, UserPreference}
use nudging_tool.Session.{
  Session, ok, err, key_error, integrity_error, for_each, pure, lift, modify, commit, violation,
  ◌>>=◌,
}
use nudging_tool.Env.{uuid4, utc_now}
use nudging_tool.Samples.{env, db, start, welcome, welcome_en}
use nudging_tool.Text.{strip}
use nudging_tool.Json.{get, has}
use nudging_tool.Seed.Columns.{required, get_or, count_of, get_of}
use nudging_tool.Seed.Table.{upsert, upsert_all}
use nudging_tool.Seed.Items.{
  rule_key, rule_patch, new_rule, template_key, template_patch, new_template, preference_key,
  preference_patch, added_preference, override_key, override_patch, new_override, rule_table,
  template_table,
}
use nudging_tool.Seed.Items.Laws.{rule_table-IsTable, template_table-IsTable}
use nudging_tool.Seed.Apply.{seed_counts, seed_violation, commit_seed, seed_apply, auto_seed}
use nudging_tool.Seed.Apply.Laws.{seed_apply_again}
use nudging_tool.Seed.Apply.Durable.{seed_apply_error}
use nudging_tool.Seed.Apply.Startup.{auto_seed-seed_apply}
use nudging_tool.Seed.Apply.Readable.{IsReady, seed_apply_ends}
use nudging_tool.Seed.Table.Readable.{IsReadable}
use nudging_tool.Seed.Samples.{
  columns, body, seeds, nameless, readable, welcome_item, template_item,
}

-- The session that the seed leaves.
abbrev seeded : Session
seeded = (seed_apply env columns body (start db)).1

runs : seed_apply env columns body (start db) ≡ (ok (seed_counts body), seeded)
unfolding seed_apply upsert_all upsert rule_key rule_patch new_rule template_key template_patch
    new_template preference_key preference_patch added_preference override_key override_patch
    new_override for_each commit_seed seed_violation violation uuid4 utc_now required get_or
    count_of get_of get has strip ◌>>=◌ modify commit
runs = refl

-- The rule that was there is changed in place, the others are added at the front.
seeded_rows :
    (map (λ (r : Rule). r.name) seeded.committed.rules ≡ "Outage" ∷ "Hello" ∷ [])
    × (map (λ (t : Template). t.id) seeded.committed.templates
        ≡ "tpl_outage_en" ∷ "tpl_welcome_en" ∷ [])
    × (map (λ (p : UserPreference). p.lang) seeded.committed.preferences ≡ "it" ∷ [])
unfolding seed_apply upsert_all upsert rule_key rule_patch new_rule template_key template_patch
    new_template preference_key preference_patch added_preference override_key override_patch
    new_override for_each commit_seed seed_violation violation uuid4 utc_now required get_or
    count_of get_of get has strip ◌>>=◌ modify commit
seeded_rows = (refl, refl, refl)

nameless_fails : (seed_apply env columns nameless (start db)).0 ≡ err (key_error "name")
unfolding seed_apply upsert_all upsert rule_key rule_patch new_rule template_key template_patch
    new_template preference_key preference_patch added_preference override_key override_patch
    new_override for_each commit_seed seed_violation violation uuid4 utc_now required get_or
    count_of get_of get has strip ◌>>=◌ modify commit
nameless_fails = refl

welcome-IsReadable : IsReadable (rule_table columns) (rule_table-IsTable columns) welcome_item
unfolding rule_key rule_patch new_rule pure required get_or count_of get_of get
welcome-IsReadable = record {
  key = "welcome";
  patch = _;
  key_read = refl;
  patch_read = refl;
  made = λ s. (_, s, refl);
}

template-IsReadable :
    IsReadable (template_table env columns) (template_table-IsTable env columns) template_item
unfolding template_key template_patch new_template pure lift required get strip ◌>>=◌
template-IsReadable = record {
  key = ("outage", "en");
  patch = _;
  key_read = refl;
  patch_read = refl;
  made = λ s. (_, s, refl);
}

few : {A : Type 0} (p : A → Bool) (x : A) → length (select p (x ∷ [])) ≤ 1
few p x = ground arith

ready : IsReady env columns readable (start db)
ready = record {
  rules = (welcome-IsReadable, tt);
  templates = (template-IsReadable, tt);
  preferences = tt;
  overrides = tt;
  rules_unique = λ k. few (λ (r : Rule). r.id == k) welcome;
  templates_unique = λ k. few (λ (t : Template). t.rule_id == k.0 && t.lang == k.1) welcome_en;
  preferences_unique = λ k. omega arith;
  overrides_unique = λ k. omega arith;
}

seed_apply_again_example : seed_apply env columns body seeded ≡ (ok (seed_counts body), seeded)
seed_apply_again_example =
    seed_apply_again env columns body (seed_counts body) (start db) seeded runs

seed_apply_error_example : (seed_apply env columns nameless (start db)).1.committed ≡ db
seed_apply_error_example =
    seed_apply_error env columns nameless (start db) (key_error "name") nameless_fails

seed_apply_ends_example :
    ((t : Session) × (seed_apply env columns readable (start db) ≡ (ok (seed_counts readable), t)))
    ⊎ ((c : String) × (t : Session) × (seed_apply env columns readable (start db)
          ≡ (err (integrity_error c), t)))
seed_apply_ends_example = seed_apply_ends env columns readable (start db) ready

auto_seed-seed_apply_example :
    (auto_seed env columns (λ _. true) (λ _. ok seeds) (start db)).1
    ≡ (seed_apply env columns
        (record {
          rules = seeds.rules;
          templates = seeds.templates;
          preferences = seeds.preferences;
          overrides = [];
        })
        (start db)).1
auto_seed-seed_apply_example =
    auto_seed-seed_apply env columns (λ _. true) (λ _. ok seeds) (start db) "./seed" seeds refl refl
      refl
