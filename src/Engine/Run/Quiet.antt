-- ===== src/Engine/Run/Quiet.antt =====
-- The parts of a run that write neither to the log nor to the notifications.
use nudging_tool.Prelude.{ℕ, String, Option, none, some, List, [], ◌∷◌}
use nudging_tool.Json.{Json, Dict, truthy}
use nudging_tool.Db.{Rule, Template, Db}
use nudging_tool.Session.{
  Error, Session, Exec, Result, pure, raise, query, ◌>>=◌, lift, scalar_one_or_none,
}
use nudging_tool.Session.Hoare.{
  Hoare, Hoare-pure, Hoare-raise, Hoare-lift, Hoare-query, Hoare-if, Hoare-modify, Hoare-bind,
}
use nudging_tool.Env.{Env, uuid4, utc_now}
use nudging_tool.Engine.Keys.{attempt_dedup_key, dedup_scope, text_or_now}
use nudging_tool.Engine.Load.{
  first_template, load_rule_and_template, override_for_community, apply_rule_override,
}
use nudging_tool.Engine.Run.Outcome.{Quiet, Failed, Quiet-Failed}

module _ (env : Env) (before : Db) {E : Error → Session → Type 0} where
  pub pure-Quiet : {A : Type 0} (a : A) → Hoare (Quiet before) (pure a) (λ _. Quiet before) E
  pure-Quiet a = Hoare-pure a (λ s q. q)

  pub uuid4-Quiet : Hoare (Quiet before) (uuid4 env) (λ _. Quiet before) E
  unfolding uuid4
  uuid4-Quiet = record { at = λ s q. record { committed = q.committed; working = q.working } }

  pub utc_now-Quiet : Hoare (Quiet before) (utc_now env) (λ _. Quiet before) E
  unfolding utc_now
  utc_now-Quiet = record { at = λ s q. record { committed = q.committed; working = q.working } }

  pub attempt_dedup_key-Quiet :
      (rule_id user_id : String) (community_id : Option String) (scope : String)
      → Hoare
          (Quiet before)
          (attempt_dedup_key env rule_id user_id community_id scope)
          (λ _. Quiet before)
          E
  unfolding attempt_dedup_key uuid4 ◌>>=◌
  attempt_dedup_key-Quiet rule_id user_id community_id scope = record {
    at = λ s q. record { committed = q.committed; working = q.working };
  }

  pub text_or_now-Quiet :
      (v : Json) (now : Exec String)
      → Hoare (Quiet before) now (λ _. Quiet before) E
      → Hoare (Quiet before) (text_or_now env v now) (λ _. Quiet before) E
  text_or_now-Quiet v now h = Hoare-if (truthy v) _ now (λ _. Hoare-pure _ (λ s q. q)) (λ _. h)

  pub clock_text-Quiet :
      (format : ℕ → String)
      → Hoare (Quiet before) (do now ← utc_now env; pure (format now)) (λ _. Quiet before) E
  clock_text-Quiet format = Hoare-bind _ _ utc_now-Quiet (λ now. Hoare-pure _ (λ s q. q))

  pub dedup_scope-Quiet :
      (rule : Rule) (facts : Dict)
      → Hoare (Quiet before) (dedup_scope env rule facts) (λ _. Quiet before) E
  unfolding dedup_scope
  dedup_scope-Quiet rule facts =
      search (Hoare-if, uuid4-Quiet, pure-Quiet, text_or_now-Quiet, clock_text-Quiet) depth 8

module _ (before : Db) where
  pub lift-Quiet :
      {A : Type 0} (r : Result A)
      → Hoare (Quiet before) (lift r) (λ _. Quiet before) (Failed before)
  lift-Quiet r = Hoare-lift r (λ a _ s q. q) (Quiet-Failed before)

  pub query-Quiet :
      {A : Type 0} (f : Db → A) → Hoare (Quiet before) (query f) (λ _. Quiet before) (Failed before)
  query-Quiet f = Hoare-query f (λ s q. q)

  pub raise-Quiet :
      {A : Type 0} (e : Error)
      → Hoare {A = A} (Quiet before) (raise e) (λ _. Quiet before) (Failed before)
  raise-Quiet e = Hoare-raise e (Quiet-Failed before e)

  pub first_template-Quiet :
      (rule_id : String) (langs : List String)
      → Hoare (Quiet before) (first_template rule_id langs) (λ _. Quiet before) (Failed before)
  unfolding first_template
  first_template-Quiet rule_id [] = Hoare-pure _ (λ s q. q)
  first_template-Quiet rule_id (lang ∷ langs) = Hoare-bind _ _ (query-Quiet _) λ rows.
      Hoare-bind _ _ (lift-Quiet (scalar_one_or_none rows))
        (go (first_template-Quiet rule_id langs))
    where
      go :
          Hoare (Quiet before) (first_template rule_id langs) (λ _. Quiet before) (Failed before)
          → (t : Option Template)
          → Hoare
              (Quiet before)
              (elim t [ some t ↦ pure (some t) | none ↦ first_template rule_id langs ])
              (λ _. Quiet before)
              (Failed before)
      go rest none = rest
      go rest (some t) = Hoare-pure _ (λ s q. q)

  pub load_rule_and_template-Quiet :
      (rule_id lang : String)
      → Hoare
          (Quiet before)
          (load_rule_and_template rule_id lang)
          (λ _. Quiet before)
          (Failed before)
  unfolding load_rule_and_template
  load_rule_and_template-Quiet rule_id lang = Hoare-bind _ _ (query-Quiet _) λ rows.
      Hoare-bind _ _ (lift-Quiet (scalar_one_or_none rows)) (elim [
        | none ↦ raise-Quiet _
        | some rule ↦
            Hoare-bind _ _ (first_template-Quiet rule_id (lang ∷ "en" ∷ []))
              (elim [ none ↦ raise-Quiet _ | some t ↦ Hoare-pure _ (λ s q. q) ])
      ])

  -- An override changes rules only.
  pub override_for_community-Quiet :
      (rule : Rule) (community : String)
      → Hoare
          (Quiet before)
          (override_for_community rule community)
          (λ _. Quiet before)
          (Failed before)
  unfolding override_for_community
  override_for_community-Quiet rule community = Hoare-bind _ _ (query-Quiet _) λ rows.
      Hoare-bind _ _ (lift-Quiet (scalar_one_or_none rows)) (elim [
        | none ↦ Hoare-pure _ (λ s q. q)
        | some o ↦
            Hoare-bind _ _
              (Hoare-modify {Q = λ _. Quiet before} _ λ s q. record {
                committed = q.committed;
                working = record {
                  nudges = q.working.nudges;
                  notifications = q.working.notifications;
                };
              })
              (λ _. Hoare-pure _ (λ s q. q))
      ])

  pub apply_rule_override-Quiet :
      (rule : Rule) (community_id : Option String)
      → Hoare
          (Quiet before)
          (apply_rule_override rule community_id)
          (λ _. Quiet before)
          (Failed before)
  unfolding apply_rule_override
  apply_rule_override-Quiet rule none = Hoare-pure _ (λ s q. q)
  apply_rule_override-Quiet rule (some String.[]) = Hoare-pure _ (λ s q. q)
  apply_rule_override-Quiet rule (some (String.◌∷◌ c s)) = override_for_community-Quiet rule _
