-- ===== src/Engine/Batch/Counts.antt =====
-- How the durable log and the durable notifications grow with the results of an event.
use nudging_tool.Prelude.{
  ℕ, suc, ◌+◌, String, ◌≡◌, refl, ap, Bool, true, false, Option, none, some, List, [], ◌∷◌, length,
  arith,
}
use nudging_tool.Json.{Json, Dict, str, get}
use nudging_tool.Db.{Db}
use nudging_tool.Session.{Error, Session, ok, Exec, traverse}
use nudging_tool.Session.Hoare.{
  Hoare, Hoare-pure, Hoare-lift, Hoare-query, Hoare-if, Hoare-bind, Hoare-strengthen, Hoare-ok,
}
use nudging_tool.Env.{Env}
use nudging_tool.Engine.{
  EngineResultStatus, created, missing_facts, unknown_scenario, is_created, EngineResult,
  DigitalTwinEvent,
}
use nudging_tool.Engine.TimeScope.{TimeScope}
use nudging_tool.Engine.Resolve.{preferred_lang, filled_or, resolve_lang}
use nudging_tool.Engine.Log.{Subject}
use nudging_tool.Engine.Run.{run_single_rule}
use nudging_tool.Engine.Run.Outcome.{OutcomeOf}
use nudging_tool.Engine.Run.Total.{run_single_rule-Outcome}
use nudging_tool.Engine.Run.Staged.{log_status-Logged}
use nudging_tool.Engine.Run.Results.{Quiet-clean}
use nudging_tool.Engine.Batch.{
  refuse_batch, run_rules, run_candidates, run_scoped, run_checked, chosen_lang, run_engine_batch,
}

abbrev pub one_more : Bool → ℕ → ℕ
one_more true n = suc n
one_more false n = n

-- How many of the results created a nudge.
abbrev pub created_count : List EngineResult → ℕ
created_count [] = 0
created_count (r ∷ rs) = one_more (is_created r.status) (created_count rs)

-- The durable log has `n` rows and there are `m` durable notifications; nothing is unsaved.
abbrev pub Sized : ℕ → ℕ → Session → Type 0
Sized n m s =
    (length s.committed.nudges ≡ n)
    × (length s.committed.notifications ≡ m)
    × (s.working ≡ s.committed)

OutcomeOf-Sized :
    (mid : Db) (n m : ℕ) (status : EngineResultStatus) (r : EngineResult) (s : Session)
    → length mid.nudges ≡ n
    → length mid.notifications ≡ m
    → OutcomeOf mid status r s
    → Sized (suc n) (one_more (is_created status) m) s
OutcomeOf-Sized mid n m created r s hn hm (nudge, e, c) =
    (omega (arith, ap length c.nudges, hn), omega (arith, ap length c.notifications, hm), c.clean)
OutcomeOf-Sized mid n m _ r s hn hm l =
    (omega (arith, ap length l.nudges, hn), omega (arith, ap length l.notifications, hm), l.clean)

Any : Error → Session → Type 0
Any e s = Unit

module _ (env : Env) (evt : DigitalTwinEvent) where
  run_single_rule-Sized :
      (scenario : String) (facts : Dict) (rule_id lang : String) (n m : ℕ)
      → Hoare
          (Sized n m)
          (run_single_rule env evt scenario facts rule_id lang)
          (λ r. Sized (suc n) (one_more (is_created r.status) m))
          Any
  unfolding Any
  run_single_rule-Sized scenario facts rule_id lang n m = record {
    at = λ s p.
        (Hoare-strengthen (run_single_rule-Outcome env evt scenario facts s.committed rule_id lang)
            (λ r t o. OutcomeOf-Sized s.committed n m r.status r t p.0 p.1 o) (λ e t f. tt)).at
          s (Quiet-clean s p.2);
  }

  traverse-Sized :
      (scenario : String) (facts : Dict) (lang : String) (ids : List String) (n m : ℕ)
      → Hoare
          (Sized n m)
          (traverse (λ id. run_single_rule env evt scenario facts id lang) ids)
          (λ rs. Sized (length rs + n) (created_count rs + m))
          Any
  unfolding traverse
  traverse-Sized scenario facts lang [] n m =
      Hoare-pure {P = Sized n m} _ (λ s p. (omega (arith, p.0), omega (arith, p.1), p.2))
  traverse-Sized scenario facts lang (id ∷ ids) n m =
      Hoare-bind _ _ (run_single_rule-Sized scenario facts id lang n m) λ r.
        Hoare-bind _ _
          (traverse-Sized scenario facts lang ids (suc n) (one_more (is_created r.status) m))
          λ rs. Hoare-pure _ (λ s p. (omega (arith, p.0), ground (arith, p.1), p.2))

  -- A refusal is one row of the log.
  refuse_batch-Sized :
      (status : EngineResultStatus) (x : Subject) (reason : String)
      → (logged details : Option Dict) (n m : ℕ) → is_created status ≡ false
      → Hoare
          (Sized n m)
          (refuse_batch env evt status x reason logged details)
          (λ rs. Sized (length rs + n) (created_count rs + m))
          Any
  unfolding refuse_batch Any
  refuse_batch-Sized status x reason logged details n m refused =
      Hoare-bind {Q = λ _ s. Sized (suc n) m s} _ _
        (record {
          at = λ s p.
              (Hoare-strengthen (log_status-Logged env s.committed status x logged)
                  (λ u t l. (
                    omega (arith, ap length l.nudges, p.0),
                    omega (arith, ap length l.notifications, p.1),
                    l.clean,
                  ))
                  (λ e t f. tt)).at
                s (Quiet-clean s p.2);
        })
        (λ _.
          Hoare-pure {P = Sized (suc n) m} _
            (λ s p. (omega (arith, p.0), rw refused (omega (arith, p.1)), p.2)))

  module _ (n m : ℕ) where
    abbrev Grows : Exec (List EngineResult) → Type 0
    Grows action = Hoare (Sized n m) action (λ rs. Sized (length rs + n) (created_count rs + m)) Any

    run_rules-Sized :
        (raw : Dict) (scenario : String) (ts : TimeScope) (lang : String) (facts : Dict)
        → (ids : List String) → Grows (run_rules env evt raw scenario ts lang facts ids)
    unfolding run_rules
    run_rules-Sized raw scenario ts lang facts [] =
        refuse_batch-Sized unknown_scenario _ _ _ _ n m refl
    run_rules-Sized raw scenario ts lang facts (id ∷ ids) =
        traverse-Sized scenario facts lang (id ∷ ids) n m

    run_candidates-Sized :
        (raw : Dict) (scenario : String) (ts : TimeScope) (lang : String) (ids : List String)
        → Grows (run_candidates env evt raw scenario ts lang ids)
    unfolding run_candidates
    run_candidates-Sized raw scenario ts lang [] =
        refuse_batch-Sized unknown_scenario _ _ _ _ n m refl
    run_candidates-Sized raw scenario ts lang (id ∷ ids) =
        Hoare-bind {Q = λ _. Sized n m} _ _ (Hoare-query _ (λ s p. p))
          (run_rules-Sized raw scenario ts lang _)

    run_scoped-Sized :
        (raw : Dict) (scenario lang : String) (ts : Option TimeScope)
        → Grows (run_scoped env evt raw scenario lang ts)
    unfolding run_scoped
    run_scoped-Sized raw scenario lang none = refuse_batch-Sized missing_facts _ _ _ _ n m refl
    run_scoped-Sized raw scenario lang (some ts) =
        Hoare-bind {Q = λ _. Sized n m} _ _ (Hoare-query _ (λ s p. p))
          (run_candidates-Sized raw scenario ts lang)

    run_checked-Sized :
        (raw : Dict) (lang : String) (contract : Bool × List String)
        → Grows (run_checked env evt raw lang contract)
    unfolding run_checked
    run_checked-Sized raw lang (valid, errors) =
        Hoare-if valid _ _ (λ _. run_scoped-Sized raw _ lang _)
          (λ _. refuse_batch-Sized missing_facts _ _ _ _ n m refl)

    preferred_lang-Sized :
        (user_id : String) (community_id : Option String)
        → Hoare (Sized n m) (preferred_lang env user_id community_id) (λ _. Sized n m) Any
    unfolding Any
    preferred_lang-Sized user_id community_id =
        Hoare-bind {Q = λ _. Sized n m} _ _ (Hoare-query _ (λ s p. p)) λ rows.
          Hoare-bind {Q = λ _. Sized n m} _ _ (Hoare-lift _ (λ a h s p. p) (λ e s p. tt))
            λ pref. Hoare-pure _ (λ s p. p)

    filled_or-Sized :
        (v : Json) (other : Exec String)
        → Hoare (Sized n m) other (λ _. Sized n m) Any
        → Hoare (Sized n m) (filled_or env v other) (λ _. Sized n m) Any
    filled_or-Sized (str (String.◌∷◌ c s)) other h = Hoare-pure _ (λ s p. p)
    filled_or-Sized _ other h = h

    resolve_lang-Sized :
        (user_id : String) (community_id : Option String) (facts : Dict)
        → Hoare (Sized n m) (resolve_lang env user_id community_id facts) (λ _. Sized n m) Any
    unfolding resolve_lang
    resolve_lang-Sized user_id community_id facts =
        filled_or-Sized (get "lang" facts) _ (preferred_lang-Sized user_id community_id)

    chosen_lang-Sized :
        (lang : Option String) → Hoare (Sized n m) (chosen_lang env evt lang) (λ _. Sized n m) Any
    unfolding chosen_lang
    chosen_lang-Sized none = resolve_lang-Sized _ _ _
    chosen_lang-Sized (some String.[]) = resolve_lang-Sized _ _ _
    chosen_lang-Sized (some (String.◌∷◌ c s)) = Hoare-pure _ (λ s p. p)

    run_engine_batch-Grows : (lang : Option String) → Grows (run_engine_batch env evt lang)
    unfolding run_engine_batch
    run_engine_batch-Grows lang =
        Hoare-bind _ _ (chosen_lang-Sized lang) (λ chosen. run_checked-Sized _ chosen _)

-- An event that is handled without an exception leaves one durable row in the log for each result,
-- one durable notification for each result that created a nudge, and nothing unsaved. The session
-- that it starts from has nothing unsaved either.
pub run_engine_batch-Sized :
    (env : Env) (evt : DigitalTwinEvent) (lang : Option String) (s : Session)
    → s.working ≡ s.committed
    → (rs : List EngineResult) → (run_engine_batch env evt lang s).0 ≡ ok rs
    → Sized
        (length rs + length s.committed.nudges)
        (created_count rs + length s.committed.notifications)
        (run_engine_batch env evt lang s).1
run_engine_batch-Sized env evt lang s clean rs h =
    Hoare-ok
      (run_engine_batch-Grows env evt (length s.committed.nudges) (length s.committed.notifications)
        lang)
      s (refl, refl, clean) rs h
