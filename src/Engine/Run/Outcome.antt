-- ===== src/Engine/Run/Outcome.antt =====
-- What one run of a rule leaves in the log and among the notifications.
use nudging_tool.Prelude.{String, ◌≡◌, false, some, ◌∷◌, contains}
use nudging_tool.Db.{NudgeLog, Notification, Db}
use nudging_tool.Session.{Error, value_error, Session, dedup_keys}
use nudging_tool.Engine.Keys.{compute_dedup_key}
use nudging_tool.Engine.{EngineResultStatus, created, status_text, NudgeEvent, EngineResult}

-- The log and the notifications are those of `before`.
pub record SameLogs (before d : Db) : Type 0 where
  pub nudges : d.nudges ≡ before.nudges
  pub notifications : d.notifications ≡ before.notifications

-- Nothing is logged yet, neither durably nor in the transaction.
pub record Quiet (before : Db) (s : Session) : Type 0 where
  pub committed : SameLogs before s.committed
  pub working : SameLogs before s.working

-- One more row in the durable log, of the given status, and no notification.
pub record Logged (before : Db) (status : EngineResultStatus) (s : Session) : Type 0 where
  pub row : NudgeLog
  pub nudges : s.committed.nudges ≡ row ∷ before.nudges
  pub notifications : s.committed.notifications ≡ before.notifications
  pub row_status : row.status ≡ status_text status
  pub clean : s.working ≡ s.committed

-- One more row in the durable log, under a key that was not there, and one pending notification
-- that belongs to it and carries what was rendered for `nudge`.
pub record Created (before : Db) (nudge : NudgeEvent) (s : Session) : Type 0 where
  pub row : NudgeLog
  pub notification : Notification
  pub nudges : s.committed.nudges ≡ row ∷ before.nudges
  pub notifications : s.committed.notifications ≡ notification ∷ before.notifications
  pub row_id : row.id ≡ nudge.nudge_id
  pub row_status : row.status ≡ "created"
  pub scope : String
  pub keyed : row.dedup_key ≡ compute_dedup_key nudge.rule_id nudge.user_id row.community_id scope
  pub linked : notification.nudge_log_id ≡ nudge.nudge_id
  pub same_user : notification.user_id ≡ row.user_id
  pub pending : notification.status ≡ "pending"
  pub title : notification.title ≡ nudge.title
  pub body : notification.body ≡ nudge.body
  pub fresh : contains row.dedup_key (dedup_keys before) ≡ false
  pub clean : s.working ≡ s.committed

abbrev pub OutcomeOf : Db → EngineResultStatus → EngineResult → Session → Type 0
OutcomeOf before created r s =
    (nudge : NudgeEvent) × (r.nudge ≡ some nudge) × Created before nudge s
OutcomeOf before status r s = Logged before status s

abbrev pub Outcome : Db → EngineResult → Session → Type 0
Outcome before r s = OutcomeOf before r.status r s

-- After an exception nothing new is durable; after a `ValueError` nothing is in the transaction.
abbrev pub Failed : Db → Error → Session → Type 0
Failed before (value_error m) s = Quiet before s
Failed before _ s = SameLogs before s.committed

pub Quiet-Failed : (before : Db) (e : Error) (s : Session) → Quiet before s → Failed before e s
Quiet-Failed before (value_error m) s q = q
Quiet-Failed before _ s q = q.committed
