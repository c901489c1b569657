-- ===== src/Engine/Run/Results.antt =====
-- What a run of one rule promises to its caller, on a session with nothing unsaved.
use nudging_tool.Prelude.{String, ◌≡◌, refl, ap, true, false, some}
use nudging_tool.Json.{Dict}
use nudging_tool.Db.{Db}
use nudging_tool.Session.{Session, ok, err, Error}
use nudging_tool.Session.Hoare.{Hoare-ok, Hoare-err}
use nudging_tool.Env.{Env}
use nudging_tool.Engine.{
  EngineResultStatus, created, is_created, DigitalTwinEvent, NudgeEvent, EngineResult,
}
use nudging_tool.Engine.Run.{run_single_rule}
use nudging_tool.Engine.Run.Outcome.{SameLogs, Quiet, Logged, Created, OutcomeOf, Failed}
use nudging_tool.Engine.Run.Total.{run_single_rule-Outcome}

pub Quiet-clean : (s : Session) → s.working ≡ s.committed → Quiet s.committed s
Quiet-clean s clean = record {
  committed = record { nudges = refl; notifications = refl };
  working = record {
    nudges = ap (λ (d : Db). d.nudges) clean;
    notifications = ap (λ (d : Db). d.notifications) clean;
  };
}

OutcomeOf-Created :
    (before : Db) (status : EngineResultStatus) (r : EngineResult) (s : Session)
    → is_created status ≡ true
    → OutcomeOf before status r s
    → (nudge : NudgeEvent) × (r.nudge ≡ some nudge) × Created before nudge s
OutcomeOf-Created before created r s h o = o
OutcomeOf-Created before _ r s h o = cc

OutcomeOf-Logged :
    (before : Db) (status : EngineResultStatus) (r : EngineResult) (s : Session)
    → is_created status ≡ false
    → OutcomeOf before status r s
    → Logged before status s
OutcomeOf-Logged before created r s h o = cc
OutcomeOf-Logged before _ r s h o = o

Failed-same :
    (before : Db) (e : Error) (s : Session) → Failed before e s → SameLogs before s.committed
Failed-same before (Error.value_error m) s q = q.committed
Failed-same before _ s q = q

module _ (env : Env) (evt : DigitalTwinEvent) (scenario : String) (facts_in : Dict)
    (rule_id lang : String) (s : Session) (clean : s.working ≡ s.committed) where
  -- On a session with nothing unsaved, a run that reports `created` has made two rows durable,
  -- together: a log row of status `created`, whose dedup key is that of the nudge and was in no row
  -- of the log before, and one pending notification that belongs to the row and carries the
  -- rendered title and body.
  pub run_single_rule-Created :
      (r : EngineResult)
      → (run_single_rule env evt scenario facts_in rule_id lang s).0 ≡ ok r
      → is_created r.status ≡ true
      → (nudge : NudgeEvent) × (r.nudge ≡ some nudge)
        × Created s.committed nudge (run_single_rule env evt scenario facts_in rule_id lang s).1
  run_single_rule-Created r h is_new = OutcomeOf-Created s.committed r.status r _ is_new (
      Hoare-ok (run_single_rule-Outcome env evt scenario facts_in s.committed rule_id lang) s
        (Quiet-clean s clean) r h)

  -- On a session with nothing unsaved, a run that reports anything else has made one log row of
  -- that status durable and no notification, and leaves nothing unsaved.
  pub run_single_rule-Logged :
      (r : EngineResult)
      → (run_single_rule env evt scenario facts_in rule_id lang s).0 ≡ ok r
      → is_created r.status ≡ false
      → Logged s.committed r.status (run_single_rule env evt scenario facts_in rule_id lang s).1
  run_single_rule-Logged r h refused = OutcomeOf-Logged s.committed r.status r _ refused (
      Hoare-ok (run_single_rule-Outcome env evt scenario facts_in s.committed rule_id lang) s
        (Quiet-clean s clean) r h)

  -- On a session with nothing unsaved, a run that raises leaves the durable log and the durable
  -- notifications as they were.
  pub run_single_rule-SameLogs :
      (e : Error)
      → (run_single_rule env evt scenario facts_in rule_id lang s).0 ≡ err e
      → SameLogs s.committed (run_single_rule env evt scenario facts_in rule_id lang s).1.committed
  run_single_rule-SameLogs e h = Failed-same s.committed e _ (
      Hoare-err (run_single_rule-Outcome env evt scenario facts_in s.committed rule_id lang) s
        (Quiet-clean s clean) e h)
