-- ===== src/Engine/Run/Staged.antt =====
-- A row that is staged, and the outcome of a run that only logs.
use nudging_tool.Prelude.{ℕ, String, ◌≡◌, refl, false, Option, List, ◌∷◌, arith}
use nudging_tool.Json.{Dict}
use nudging_tool.Db.{NudgeLog, Notification, Db}
use nudging_tool.Session.{Session}
use nudging_tool.Session.Hoare.{Hoare, Hoare-pure, Hoare-modify, Hoare-commit, Hoare-bind}
use nudging_tool.Env.{Env}
use nudging_tool.Engine.{
  EngineResultStatus, created, is_created, status_text, DigitalTwinEvent, EngineResult,
}
use nudging_tool.Engine.Log.{Subject, audit_payload, log_status}
use nudging_tool.Engine.Run.{refuse}
use nudging_tool.Engine.Run.Outcome.{SameLogs, Quiet, Logged, Outcome, OutcomeOf, Failed}
use nudging_tool.Engine.Run.Quiet.{uuid4-Quiet, utc_now-Quiet, attempt_dedup_key-Quiet}

-- Rows of the transaction that a commit is about to make durable.
pub record Staged (before : Db) (row : NudgeLog) (notifications : List Notification) (s : Session)
    : Type 0 where
  pub committed : SameLogs before s.committed
  pub nudges : s.working.nudges ≡ row ∷ before.nudges
  pub same : s.working.notifications ≡ notifications

Logged-outcome :
    (before : Db) (status : EngineResultStatus) (r : EngineResult) (s : Session)
    → is_created status ≡ false
    → Logged before status s
    → OutcomeOf before status r s
Logged-outcome before created r s h l = cc
Logged-outcome before _ r s h l = l

module _ (env : Env) (before : Db) where
  -- `log_status` adds its row, or raises with nothing durable.
  pub log_status-Logged :
      (status : EngineResultStatus) (x : Subject) (details : Option Dict)
      → Hoare
          (Quiet before)
          (log_status env status x details)
          (λ _. Logged before status)
          (Failed before)
  unfolding log_status
  log_status-Logged status x details = Hoare-bind _ _ (uuid4-Quiet env before) λ id.
      Hoare-bind _ _ (attempt_dedup_key-Quiet env before x.rule_id x.user_id x.community_id x.scope)
        λ key. Hoare-bind _ _ (utc_now-Quiet env before) λ now.
          Hoare-bind {Q = λ _. Staged before (row id key now) before.notifications} _ _
            (Hoare-modify _ λ s q. record {
              committed = q.committed;
              nudges = ground (arith, q.working.nudges);
              same = q.working.notifications;
            })
            (λ _.
              Hoare-commit
                (λ s q valid. record {
                  row = row id key now;
                  nudges = q.nudges;
                  notifications = q.same;
                  row_status = refl;
                  clean = refl;
                })
                (λ c s q. q.committed))
    where
      row : String → String → ℕ → NudgeLog
      row id key now = record {
        id = id;
        rule_id = x.rule_id;
        user_id = x.user_id;
        community_id = x.community_id;
        dedup_key = key;
        status = status_text status;
        payload = audit_payload x details;
        created_at = now;
      }

  pub refuse-Outcome :
      (evt : DigitalTwinEvent) (scenario : String) (facts_in : Dict) (status : EngineResultStatus)
      (x : Subject) (reason : String) (logged details : Option Dict)
      → is_created status ≡ false
      → Hoare
          (Quiet before)
          (refuse env evt scenario facts_in status x reason logged details)
          (Outcome before)
          (Failed before)
  unfolding refuse
  refuse-Outcome evt scenario facts_in status x reason logged details h =
      Hoare-bind _ _ (log_status-Logged status x logged)
        λ _. Hoare-pure _ (λ s l. Logged-outcome before status _ s h l)
