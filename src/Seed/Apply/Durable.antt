-- ===== src/Seed/Apply/Durable.antt =====
-- What a seed makes durable, and what a seed that fails leaves.
use nudging_tool.Prelude.{String, ◌≡◌, refl, Option, none, some, List, [], ◌∷◌}
use nudging_tool.Json.{Dict}
use nudging_tool.Db.{Db}
use nudging_tool.Session.{Error, Session, ok, err, Exec, for_each, scalar_one_or_none}
use nudging_tool.Session.Hoare.{
  Hoare, Hoare-bind, Hoare-pure, Hoare-lift, Hoare-query, Hoare-modify, Hoare-commit, Hoare-ok,
  Hoare-err, Hoare-raise,
}
use nudging_tool.Env.{Env, uuid4, utc_now}
use nudging_tool.Seed.Columns.{Columns}
use nudging_tool.Seed.Table.{Table, save_item, upsert, upsert_all}
use nudging_tool.Seed.Items.{
  rule_table, template_table, preference_table, override_table, new_rule, new_template,
  added_preference, new_override,
}
use nudging_tool.Seed.Apply.{
  SeedApplyRequest, SeedApplyResponse, refuse, commit_seed, upsert_seed, seed_apply,
}

-- The durable rows are those of `db`.
abbrev Durable : Db → Session → Type 0
Durable db s = s.committed ≡ db

-- An action that commits nothing, whatever becomes of it.
abbrev Quiet : {A : Type 0} → Db → Exec A → Type 0
Quiet {A} db m = Hoare (Durable db) m (λ _. Durable db) (λ _. Durable db)

module _ {Key Row Patch : Type 0} (table : Table Key Row Patch) (db : Db)
    (quiet_new : (k : Key) (item : Dict) → Quiet db (table.new_row k item)) where
  save_item-Quiet :
      (k : Key) (item : Dict) (found : Option Row) → Quiet db (save_item table k item found)
  unfolding save_item
  save_item-Quiet k item none = Hoare-bind _ _ (quiet_new k item) (λ row.
      Hoare-bind _ _ (Hoare-lift (table.item_patch item) (λ p e s h. h) (λ e s h. h))
        (λ p. Hoare-modify _ (λ s h. h)))
  save_item-Quiet k item (some row) =
      Hoare-bind _ _ (Hoare-lift (table.item_patch item) (λ p e s h. h) (λ e s h. h))
        (λ p. Hoare-modify _ (λ s h. h))

  upsert-Quiet : (item : Dict) → Quiet db (upsert table item)
  unfolding upsert
  upsert-Quiet item =
      Hoare-bind _ _ (Hoare-lift (table.item_key item) (λ p e s h. h) (λ e s h. h)) (λ k.
        Hoare-bind {Q = λ _. Durable db} _ _ (Hoare-query _ (λ s h. h)) (λ rows.
          Hoare-bind _ _ (Hoare-lift (scalar_one_or_none rows) (λ p e s h. h) (λ e s h. h))
            (λ found. save_item-Quiet k item found)))

  upsert_all-Quiet : (items : List Dict) → Quiet db (upsert_all table items)
  unfolding upsert_all for_each
  upsert_all-Quiet [] = Hoare-pure tt (λ s h. h)
  upsert_all-Quiet (item ∷ items) = Hoare-bind _ _ (upsert-Quiet item) (λ _. upsert_all-Quiet items)

module _ (env : Env) (columns : Columns) (db : Db) where
  template-Quiet : (k : String × String) (t : Dict) → Quiet db (new_template env columns k t)
  unfolding new_template
  template-Quiet k t =
      Hoare-bind _ _ (Hoare-lift _ (λ p e s h. h) (λ e s h. h)) (λ id. Hoare-pure _ (λ s h. h))

  preference-Quiet :
      (k : String × Option String) (p : Dict) → Quiet db (added_preference env columns k p)
  unfolding added_preference uuid4 utc_now
  preference-Quiet k p =
      Hoare-bind {Q = λ _. Durable db} _ _ (record { at = λ s h. h })
        (λ id.
          Hoare-bind {Q = λ _. Durable db} _ _ (record { at = λ s h. h })
            (λ now.
              Hoare-bind _ _ (Hoare-lift _ (λ p e s h. h) (λ e s h. h))
                (λ lang. Hoare-pure _ (λ s h. h))))

  refuse-Quiet : (broken : Option String) → Quiet db (refuse broken)
  refuse-Quiet none = Hoare-pure tt (λ s h. h)
  refuse-Quiet (some c) = Hoare-raise _ (λ s h. h)

  commit_seed-Durable :
      Hoare (Durable db) commit_seed (λ _ s. s.committed ≡ s.working) (λ _. Durable db)
  unfolding commit_seed
  commit_seed-Durable = Hoare-bind {Q = λ _. Durable db} _ _ (Hoare-query _ (λ s h. h)) (λ broken.
      Hoare-bind _ _ (refuse-Quiet broken) (λ _. Hoare-commit (λ s h e. refl) (λ c s h. h)))

  upsert_seed-Durable :
      (rules templates preferences overrides : List Dict)
      → Hoare
          (Durable db)
          (upsert_seed env columns rules templates preferences overrides)
          (λ _ s. s.committed ≡ s.working)
          (λ _. Durable db)
  unfolding upsert_seed new_rule new_override
  upsert_seed-Durable rules templates preferences overrides =
      Hoare-bind _ _
        (upsert_all-Quiet (rule_table columns) db (λ k r. Hoare-pure _ (λ s h. h)) rules)
        (λ _.
          Hoare-bind _ _ (upsert_all-Quiet (template_table env columns) db template-Quiet templates)
            (λ _.
              Hoare-bind _ _
                (upsert_all-Quiet (preference_table env columns) db preference-Quiet preferences)
                (λ _.
                  Hoare-bind _ _
                    (upsert_all-Quiet (override_table columns) db (λ k o. Hoare-pure _ (λ s h. h))
                      overrides)
                    (λ _. commit_seed-Durable))))

  seed_apply-Durable :
      (body : SeedApplyRequest)
      → Hoare
          (Durable db)
          (seed_apply env columns body)
          (λ _ s. s.committed ≡ s.working)
          (λ _. Durable db)
  unfolding seed_apply
  seed_apply-Durable body =
      Hoare-bind _ _ (upsert_seed-Durable body.rules body.templates body.preferences body.overrides)
        (λ _. Hoare-pure _ (λ s h. h))

-- A seed that fails, at whatever item and with whatever exception, leaves the durable rows of every
-- table as they were.
pub seed_apply_error :
    (env : Env) (columns : Columns) (body : SeedApplyRequest) (s : Session) (e : Error)
    → (seed_apply env columns body s).0 ≡ err e
    → (seed_apply env columns body s).1.committed ≡ s.committed
seed_apply_error env columns body s e h =
    Hoare-err (seed_apply-Durable env columns s.committed body) s refl e h

-- A seed that is applied leaves nothing unsaved.
pub seed_apply_saved :
    (env : Env) (columns : Columns) (body : SeedApplyRequest) (s : Session) (r : SeedApplyResponse)
    → (seed_apply env columns body s).0 ≡ ok r
    → (seed_apply env columns body s).1.committed ≡ (seed_apply env columns body s).1.working
seed_apply_saved env columns body s r h =
    Hoare-ok (seed_apply-Durable env columns s.committed body) s refl r h
