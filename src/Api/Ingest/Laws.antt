-- ===== src/Api/Ingest/Laws.antt =====
-- The status codes of `ingest_event`.
use nudging_tool.Prelude.{
  ℕ, ◌≡◌, refl, Bool, true, false, Option, none, some, List, [], ◌∷◌, if◌then◌else◌, arith, ◌↔◌,
}
use nudging_tool.Session.{http_error, Session, Result, ok, err, Exec, raise, pure, ◌>>=◌}
use nudging_tool.Engine.{
  EngineResultStatus, created, not_triggered, missing_facts, unknown_scenario, suppressed_dedup,
  EngineResult,
}
use nudging_tool.Api.Ingest.{
  Response, is_status, has_status, only_status, respond_without_nudge, error_detail,
}

-- The status code of an answer, or of the exception that FastAPI turns into one.
abbrev pub code_of : Result Response → Option ℕ
code_of (ok r) = some r.status_code
code_of (err (http_error code d)) = some code
code_of (err _) = none

-- The same handler on what it asks of the results.
abbrev answer : Bool → Bool → Bool → Bool → Exec Response
answer quiet duplicate missing unknown =
    if quiet
    then pure (record { status_code = 204; created = []; suppressed = [] })
    else if duplicate
    then raise (http_error 409 (error_detail "suppressed"))
    else if missing
    then raise (http_error 422 (error_detail "missing_required_facts"))
    else if unknown
    then raise (http_error 400 (error_detail "unknown_scenario"))
    else raise (http_error 500 (error_detail "no_nudge_created"))

answer-code :
    (quiet duplicate missing unknown : Bool) (s : Session)
    → (quiet ≡ true → duplicate ≡ false)
    → (quiet ≡ true → missing ≡ false)
    → (quiet ≡ true → unknown ≡ false)
    → (duplicate ≡ true → missing ≡ false)
    → (duplicate ≡ true → unknown ≡ false)
    → ((code_of (answer quiet duplicate missing unknown s).0 ≡ some 204) ↔ (quiet ≡ true))
      × ((code_of (answer quiet duplicate missing unknown s).0 ≡ some 409) ↔ (duplicate ≡ true))
      × ((code_of (answer quiet duplicate missing unknown s).0 ≡ some 422) ↔ (missing ≡ true))
      × ((code_of (answer quiet duplicate missing unknown s).0 ≡ some 400)
          ↔ ((unknown ≡ true) × (missing ≡ false)))
unfolding ◌>>=◌
answer-code true d m u s qd qm qu dm du = ground (arith, qd refl, qm refl, qu refl)
answer-code false true m u s qd qm qu dm du = ground (arith, dm refl, du refl)
answer-code false false true u s qd qm qu dm du = ground arith
answer-code false false false true s qd qm qu dm du = ground arith
answer-code false false false false s qd qm qu dm du = ground arith

-- The code for the results of an event that created no nudge, as the priority of its statuses.
abbrev pub CodeFor : List EngineResult → Option ℕ → Type 0
CodeFor rs code =
    ((code ≡ some 204) ↔ (only_status not_triggered rs ≡ true))
    × ((code ≡ some 409) ↔ (only_status suppressed_dedup rs ≡ true))
    × ((code ≡ some 422) ↔ (has_status missing_facts rs ≡ true))
    × ((code ≡ some 400)
        ↔ ((has_status unknown_scenario rs ≡ true) × (has_status missing_facts rs ≡ false)))

only-has :
    (a b : EngineResultStatus) (rs : List EngineResult)
    → ((x : EngineResultStatus) → is_status a x ≡ true → is_status b x ≡ false)
    → only_status a rs ≡ true
    → has_status b rs ≡ false
only-has a b [] apart h = refl
only-has a b (r ∷ []) apart h = ground (arith, apart r.status)
only-has a b (r ∷ x ∷ xs) apart h = ground (arith, apart r.status, only-has a b (x ∷ xs) apart)

only-only :
    (a b : EngineResultStatus) (rs : List EngineResult)
    → ((x : EngineResultStatus) → is_status a x ≡ true → is_status b x ≡ false)
    → only_status a rs ≡ true
    → only_status b rs ≡ false
only-only a b [] apart h = cc
only-only a b (r ∷ rs) apart h = ground (arith, apart r.status)

-- Where no nudge was created, the answer is 204 exactly when no rule triggered, 409 exactly when
-- every rule was a duplicate, 422 exactly when facts were missing for some rule, and 400 exactly
-- when a scenario was unknown and no facts were missing.
pub respond_without_nudge-CodeFor :
    (rs : List EngineResult) (s : Session) → CodeFor rs (code_of (respond_without_nudge rs s).0)
unfolding respond_without_nudge ◌>>=◌
respond_without_nudge-CodeFor rs s =
    answer-code (only_status not_triggered rs) (only_status suppressed_dedup rs)
      (has_status missing_facts rs) (has_status unknown_scenario rs) s
      (only-only not_triggered suppressed_dedup rs (elim [
        | not_triggered ↦ λ h. ground arith
        | missing_facts ↦ λ h. ground arith
        | unknown_scenario ↦ λ h. ground arith
        | suppressed_dedup ↦ λ h. ground arith
        | created ↦ λ h. ground arith
      ]))
      (only-has not_triggered missing_facts rs (elim [
        | not_triggered ↦ λ h. ground arith
        | missing_facts ↦ λ h. ground arith
        | unknown_scenario ↦ λ h. ground arith
        | suppressed_dedup ↦ λ h. ground arith
        | created ↦ λ h. ground arith
      ]))
      (only-has not_triggered unknown_scenario rs (elim [
        | not_triggered ↦ λ h. ground arith
        | missing_facts ↦ λ h. ground arith
        | unknown_scenario ↦ λ h. ground arith
        | suppressed_dedup ↦ λ h. ground arith
        | created ↦ λ h. ground arith
      ]))
      (only-has suppressed_dedup missing_facts rs (elim [
        | not_triggered ↦ λ h. ground arith
        | missing_facts ↦ λ h. ground arith
        | unknown_scenario ↦ λ h. ground arith
        | suppressed_dedup ↦ λ h. ground arith
        | created ↦ λ h. ground arith
      ]))
      (only-has suppressed_dedup unknown_scenario rs (elim [
        | not_triggered ↦ λ h. ground arith
        | missing_facts ↦ λ h. ground arith
        | unknown_scenario ↦ λ h. ground arith
        | suppressed_dedup ↦ λ h. ground arith
        | created ↦ λ h. ground arith
      ]))
