-- ===== src/Scheduler/Events.antt =====
-- What becomes of a scheduled event.
use nudging_tool.Prelude.{ℕ, eqb, String, ◌≡◌, false, none, some, ◌⊎◌, All}
use nudging_tool.Db.{ScheduledEvent}
use nudging_tool.Session.{Error, system_exit, missing_greenlet, Session, Result}
use nudging_tool.Session.Hoare.{Hoare, EnsuresOf}
use nudging_tool.Env.{Env}

-- The rows of an event say that it was dispatched, or that it failed with a text.
abbrev pub Settled : String → ScheduledEvent → Type 0
Settled id e =
    (e.id ≡ id)
    → ((e.status ≡ "dispatched") × (e.last_error ≡ none))
      ⊎ ((e.status ≡ "failed") × ((text : String) × (e.last_error ≡ some text)))

-- An exception that leaves the processing of an event: a `SystemExit`, or the one that reading the
-- event raises after a rollback.
abbrev pub Escapes : (loaded_at : ℕ) → Error → Session → Type 0
Escapes loaded_at x s =
    ((code : ℕ) × (x ≡ system_exit code))
    ⊎ ((x ≡ missing_greenlet) × (eqb s.rollbacks loaded_at ≡ false))

module _ (env : Env) (error_text : Error → String) (loaded_at : ℕ) (e : ScheduledEvent) where
  abbrev Ends : Result (Unit {0}) → Session → Type 0
  Ends = EnsuresOf (λ _ s. All (Settled e.id) s.working.scheduled) (Escapes loaded_at)
