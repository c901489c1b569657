-- ===== src/Engine/Run/Total.antt =====
-- Every run of a rule ends in one of the outcomes.
use nudging_tool.Prelude.{ℕ, String, ◌≡◌, refl, ap, sym, ◌∷◌, arith, ◌==◌}
use nudging_tool.Json.{Dict, nil, cons}
use nudging_tool.Db.{Rule, Template, Db}
use nudging_tool.Session.{Session, ok}
use nudging_tool.Session.Commit.{fresh_of_violation}
use nudging_tool.Session.Hoare.{
  Hoare, Hoare-lift, Hoare-pure, Hoare-if, Hoare-modify, Hoare-rollback, Hoare-raise, Hoare-commit,
  Hoare-bind, Hoare-except_value_error, Hoare-except_integrity_error,
}
use nudging_tool.Env.{Env}
use nudging_tool.Engine.{
  not_triggered, missing_facts, unknown_scenario, suppressed_dedup, DigitalTwinEvent, NudgeEvent,
}
use nudging_tool.Engine.Keys.{compute_dedup_key}
use nudging_tool.Engine.Run.{
  finished, ready, Prepared, nudge_row, notification_row, save_rows, save, make_nudge, create,
  evaluate, prepare_rule, prepare, prepare_failed, run_prepared, run_single_rule,
}
use nudging_tool.Engine.Run.Outcome.{Quiet, Created, Outcome, Failed, Quiet-Failed}
use nudging_tool.Engine.Run.Staged.{Staged, refuse-Outcome}
use nudging_tool.Engine.Run.Quiet.{
  uuid4-Quiet, utc_now-Quiet, dedup_scope-Quiet, lift-Quiet, load_rule_and_template-Quiet,
  apply_rule_override-Quiet,
}

module _ (env : Env) (evt : DigitalTwinEvent) (scenario : String) (facts_in : Dict)
    (before : Db) where
  -- The nudge and its notification become durable together.
  save_rows-Created :
      (nudge : NudgeEvent) (key scope id : String) (now : ℕ)
      → key ≡ compute_dedup_key nudge.rule_id nudge.user_id evt.community_id scope
      → Hoare
          (Quiet before)
          (save_rows env evt scenario facts_in nudge key id now)
          (λ _. Created before nudge)
          (Failed before)
  unfolding save_rows
  save_rows-Created nudge key scope id now keyed =
      let row = nudge_row env evt scenario facts_in nudge key now in
      let x = notification_row env evt scenario facts_in nudge id now in
      Hoare-bind {Q = λ _. Staged before row (x ∷ before.notifications)} _ _
        (Hoare-modify _ λ s q. record {
          committed = q.committed;
          nudges = ground (arith, q.working.nudges);
          same = ground (arith, q.working.notifications);
        })
        (λ _.
          Hoare-commit
            (λ s q valid. record {
              row = row;
              notification = x;
              nudges = q.nudges;
              notifications = q.same;
              row_id = refl;
              row_status = refl;
              scope = scope;
              keyed = keyed;
              linked = refl;
              same_user = refl;
              pending = refl;
              title = refl;
              body = refl;
              fresh = fresh_of_violation s.working row before.nudges q.nudges valid;
              clean = refl;
            })
            (λ c s q. q.committed))

  save-Outcome :
      (nudge : NudgeEvent) (key scope : String)
      → key ≡ compute_dedup_key nudge.rule_id nudge.user_id evt.community_id scope
      → Hoare
          (Quiet before)
          (save env evt scenario facts_in nudge key scope)
          (Outcome before)
          (Failed before)
  unfolding save
  save-Outcome nudge key scope keyed =
      Hoare-except_integrity_error _ _
        (Hoare-bind _ _ (uuid4-Quiet env before) λ id.
          Hoare-bind _ _ (utc_now-Quiet env before) λ now.
            Hoare-bind _ _ (save_rows-Created nudge key scope id now keyed)
              λ _. Hoare-pure _ (λ s c. (nudge, refl, c)))
        (λ constraint.
          Hoare-bind _ _
            (Hoare-rollback {Q = λ _. Quiet before} (λ s q. record { committed = q; working = q }))
            (λ _.
              Hoare-if (constraint == "uq_nudges_dedup_key") _ _
                (λ _. refuse-Outcome env before evt scenario facts_in suppressed_dedup _ _ _ _ refl)
                (λ _. Hoare-raise _ (λ s q. q.committed))))

  make_nudge-rule_id :
      (rule : Rule) (nudge_id : String) (facts ctx : Dict) (rendered : String × String)
      {nudge : NudgeEvent}
      → make_nudge env evt scenario facts_in rule nudge_id facts ctx rendered ≡ ok nudge
      → nudge.rule_id ≡ rule.id
  unfolding make_nudge
  make_nudge-rule_id rule nudge_id facts ctx rendered h = ground arith

  create-Outcome :
      (rule : Rule) (tmpl : Template) (scope : String) (facts : Dict)
      → Hoare
          (Quiet before)
          (create env evt scenario facts_in rule tmpl scope facts)
          (Outcome before)
          (Failed before)
  unfolding create
  create-Outcome rule tmpl scope facts = Hoare-bind _ _ (utc_now-Quiet env before) λ now.
      Hoare-bind _ _ (lift-Quiet before _) λ rendered.
        Hoare-bind _ _ (uuid4-Quiet env before) λ nudge_id.
          Hoare-bind {Q = λ nudge s. (nudge.rule_id ≡ rule.id) × Quiet before s} _ _
            (Hoare-lift _
              (λ nudge made s q. (make_nudge-rule_id rule nudge_id facts _ rendered made, q))
              (Quiet-Failed before))
            (λ nudge. record {
              at = λ s q.
                  (save-Outcome nudge _ scope (
                      ap (λ id. compute_dedup_key id nudge.user_id evt.community_id scope)
                        (sym q.0))).at
                    s q.1;
            })

  evaluate-Outcome :
      (rule : Rule) (tmpl : Template) (scope : String)
      → Hoare
          (Quiet before)
          (evaluate env evt scenario facts_in rule tmpl scope)
          (Outcome before)
          (Failed before)
  unfolding evaluate
  evaluate-Outcome rule tmpl scope = Hoare-bind _ _ (lift-Quiet before _) λ outcome.
      Hoare-if outcome.0 _ _ (λ _. create-Outcome rule tmpl scope outcome.1)
        (λ _. refuse-Outcome env before evt scenario facts_in not_triggered _ _ _ _ refl)

  abbrev PreparedOutcome : Prepared → Session → Type 0
  PreparedOutcome (finished r) s = Outcome before r s
  PreparedOutcome (ready rule tmpl scope) s = Quiet before s

  run_prepared-Outcome :
      (p : Prepared)
      → Hoare
          (PreparedOutcome p)
          (run_prepared env evt scenario facts_in p)
          (Outcome before)
          (Failed before)
  unfolding run_prepared
  run_prepared-Outcome (finished r) = Hoare-pure r (λ s h. h)
  run_prepared-Outcome (ready rule tmpl scope) = Hoare-bind _ _ (lift-Quiet before _) (elim [
    | nil ↦ evaluate-Outcome rule tmpl scope
    | cons k ks ↦ refuse-Outcome env before evt scenario facts_in missing_facts _ _ _ _ refl
  ])

  prepare_rule-Outcome :
      (rule : Rule) (tmpl : Template)
      → Hoare
          (Quiet before)
          (prepare_rule env evt scenario facts_in rule tmpl)
          PreparedOutcome
          (Failed before)
  unfolding prepare_rule
  prepare_rule-Outcome rule tmpl =
      Hoare-if rule.enabled _ _
        (λ _.
          Hoare-bind _ _ (dedup_scope-Quiet env before rule facts_in)
            λ scope. Hoare-pure _ (λ s q. q))
        (λ _.
          Hoare-bind _ _
            (refuse-Outcome env before evt scenario facts_in not_triggered _ _ _ _ refl)
            λ r. Hoare-pure _ (λ s q. q))

  prepare-Outcome :
      (rule_id lang : String)
      → Hoare
          (Quiet before)
          (prepare env evt scenario facts_in rule_id lang)
          PreparedOutcome
          (Failed before)
  unfolding prepare
  prepare-Outcome rule_id lang =
      Hoare-bind _ _ (load_rule_and_template-Quiet before rule_id lang) λ loaded.
        Hoare-bind _ _ (apply_rule_override-Quiet before _ _) λ rule. prepare_rule-Outcome rule _

  prepare_failed-Outcome :
      (rule_id message : String)
      → Hoare
          (Quiet before)
          (prepare_failed env evt scenario facts_in rule_id message)
          PreparedOutcome
          (Failed before)
  unfolding prepare_failed
  prepare_failed-Outcome rule_id message =
      Hoare-bind _ _ (refuse-Outcome env before evt scenario facts_in unknown_scenario _ _ _ _ refl)
        λ r. Hoare-pure _ (λ s q. q)

  pub run_single_rule-Outcome :
      (rule_id lang : String)
      → Hoare
          (Quiet before)
          (run_single_rule env evt scenario facts_in rule_id lang)
          (Outcome before)
          (Failed before)
  unfolding run_single_rule
  run_single_rule-Outcome rule_id lang =
      Hoare-bind _ _
        (Hoare-except_value_error _ _ (prepare-Outcome rule_id lang)
          (prepare_failed-Outcome rule_id))
        run_prepared-Outcome
