-- ===== src/Orchestrator/Run/Laws.antt =====
-- The three ways out of the orchestrator.
use nudging_tool.Prelude.{
  eq_iff, String, ◌≡◌, refl, Bool, true, false, not, ◌&&◌, none, some, List, [], ◌∷◌, ◌==◌, any,
  all, is_nil, if◌then◌else◌, arith, inl, inr, ◌↔◌, contains, ap, eq_iff, ◌||◌, sym, subst, ◌⊎◌,
}
use nudging_tool.Db.{Notification, DeliveryLog}
use nudging_tool.Session.{Session, ok, modify, for_each, ◌>>=◌}
use nudging_tool.Session.Hoare.{
  Hoare, Hoare-pure, Hoare-modify, Hoare-commit, Hoare-bind, EnsuresOf, Hoare-ok,
}
use nudging_tool.Env.{Env, utc_now}
use nudging_tool.Delivery.{DeliveryJob, channel_text}
use nudging_tool.Orchestrator.Run.{
  final_status, suppress_job, suppress, decide, set_notification_status,
}

-- A row of the log for a job that was held back.
abbrev pub IsHeldBack : String → DeliveryJob → DeliveryLog → Type 0
IsHeldBack error job row =
    (row.id ≡ job.job_id)
    × (row.nudge_id ≡ job.nudge_id)
    × (row.channel ≡ channel_text job.channel)
    × (row.destination ≡ job.destination)
    × (row.status ≡ "suppressed")
    × (row.error ≡ some error)
    × (row.sent_at ≡ none)

-- The delivery log `after` is `before` with one such row for each job, the last job first.
abbrev pub HeldBack : String → List DeliveryJob → List DeliveryLog → List DeliveryLog → Type 0
HeldBack error [] before after = after ≡ before
HeldBack error (job ∷ jobs) before after =
    (row : DeliveryLog) × IsHeldBack error job row × HeldBack error jobs (row ∷ before) after

-- What holds once a nudge is held back: the rows are durable, its notification is `suppressed`, and
-- nothing was sent to a push or mail service.
pub record Suppressed (error : String) (id : String) (jobs : List DeliveryJob) (s t : Session)
    : Type 0 where
  pub deliveries : HeldBack error jobs s.working.deliveries t.committed.deliveries
  pub notifications :
      t.committed.notifications ≡ (set_notification_status id "suppressed" s.working).notifications
  pub clean : t.working ≡ t.committed
  pub calls : t.calls ≡ s.calls

module _ (env : Env) (error : String) where
  -- The session after the rows of the jobs.
  abbrev Rows : List DeliveryJob → Session → Session → Type 0
  Rows jobs s t =
      HeldBack error jobs s.working.deliveries t.working.deliveries
      × (t.working.notifications ≡ s.working.notifications)
      × (t.calls ≡ s.calls)

  suppress_jobs-Rows :
      (jobs : List DeliveryJob) (s : Session)
      → ((for_each (suppress_job env error) jobs s).0 ≡ ok tt)
        × Rows jobs s (for_each (suppress_job env error) jobs s).1
  unfolding for_each suppress_job ◌>>=◌ utc_now modify
  suppress_jobs-Rows [] s = (refl, (refl, refl, refl))
  suppress_jobs-Rows (job ∷ jobs) s =
      let (done, (rows, notes, calls)) = suppress_jobs-Rows jobs (suppress_job env error job s).1 in
      (done, ((_, (refl, refl, refl, refl, refl, refl, refl), rows), notes, calls))

  jobs-Hoare :
      (jobs : List DeliveryJob) (s : Session)
      → Hoare (λ t. t ≡ s) (for_each (suppress_job env error) jobs) (λ _. Rows jobs s) (λ _ _. Unit)
  jobs-Hoare jobs s = record {
    at = λ t e.
        subst
          (λ u.
            EnsuresOf (λ _. Rows jobs s) (λ _ _. Unit) (for_each (suppress_job env error) jobs u).0
              (for_each (suppress_job env error) jobs u).1)
          (sym e)
          (subst
            (λ r.
              EnsuresOf (λ _. Rows jobs s) (λ _ _. Unit) r
                (for_each (suppress_job env error) jobs s).1)
            (sym (suppress_jobs-Rows jobs s).0) (suppress_jobs-Rows jobs s).1);
  }

  suppress-Suppressed :
      (notification : Notification) (jobs : List DeliveryJob) (s : Session)
      → Hoare
          (λ t. t ≡ s)
          (suppress env notification error jobs)
          (λ sent t. (sent ≡ []) × Suppressed error notification.id jobs s t)
          (λ _ _. Unit)
  unfolding suppress
  suppress-Suppressed notification jobs s = Hoare-bind _ _ (jobs-Hoare jobs s) λ _.
      Hoare-bind _ _
        (Hoare-modify
          {Q = λ _ t.
            HeldBack error jobs s.working.deliveries t.working.deliveries
            × (t.working.notifications
                ≡ (set_notification_status notification.id "suppressed" s.working).notifications)
            × (t.calls ≡ s.calls)}
          _
          λ t r. (
            r.0,
            ap
                (λ ns.
                  (set_notification_status notification.id "suppressed"
                    (record s.working { notifications = ns })).notifications)
                r.1,
            r.2,
          ))
        λ _.
          Hoare-bind _ _
            (Hoare-commit {Q = λ _ t. Suppressed error notification.id jobs s t}
              (λ t r _. record { deliveries = r.0; notifications = r.1; clean = refl; calls = r.2 })
              (λ _ _ _. tt))
            λ _. Hoare-pure _ (λ t r. (refl, r))

-- Why a nudge is held back.
abbrev pub reason_of : Bool → String
reason_of disabled = if disabled then "kind_disabled" else "rate_limited"

module _ (env : Env) (notification : Notification) (jobs : List DeliveryJob) (s : Session) where
  decide-Hoare :
      (disabled allowed : Bool)
      → (disabled || not allowed) ≡ true
      → Hoare
          (λ t. t ≡ s)
          (decide env notification disabled allowed jobs)
          (λ sent t. (sent ≡ []) × Suppressed (reason_of disabled) notification.id jobs s t)
          (λ _ _. Unit)
  unfolding decide
  decide-Hoare true allowed h = suppress-Suppressed env "kind_disabled" notification jobs s
  decide-Hoare false false h = suppress-Suppressed env "rate_limited" notification jobs s
  decide-Hoare false true h = cc

  -- Where the kind of the rule is disabled, or the daily limit is reached, an orchestration that
  -- ends without an exception sends no job: each gets a durable row with the reason, in order, the
  -- notification is `suppressed`, and no push or mail service was called.
  pub decide-Suppressed :
      (disabled allowed : Bool)
      → (disabled || not allowed) ≡ true
      → (sent : List DeliveryJob) → (decide env notification disabled allowed jobs s).0 ≡ ok sent
      → (sent ≡ [])
        × Suppressed
            (reason_of disabled)
            notification.id
            jobs
            s
            (decide env notification disabled allowed jobs s).1
  decide-Suppressed disabled allowed h sent e =
      Hoare-ok (decide-Hoare disabled allowed h) s refl sent e

-- Whether a list of results has a status.
abbrev pub Has : String → List String → Type 0
Has status results = contains status results ≡ true

any-contains :
    (status : String) (results : List String)
    → any (λ x. x == status) results ≡ contains status results
any-contains status [] = refl
any-contains status (r ∷ rs) = ap (λ b. (r == status) || b) (any-contains status rs)

abbrev pick : Bool → Bool → String
pick sent suppressed = if sent then "sent" else if suppressed then "suppressed" else "failed"

pick_iff :
    (sent suppressed : Bool)
    → (sent ≡ true → suppressed ≡ false)
    → ((pick sent suppressed ≡ "sent") ↔ (sent ≡ true))
      × ((pick sent suppressed ≡ "suppressed") ↔ (suppressed ≡ true))
      × ((pick sent suppressed ≡ "sent")
          ⊎ (pick sent suppressed ≡ "suppressed")
          ⊎ (pick sent suppressed ≡ "failed"))
pick_iff true true apart =
    ((λ h. refl, λ h. refl), (λ h. refl, λ h. ground (arith, apart refl)), inl refl)
pick_iff true false apart =
    ((λ h. refl, λ h. refl), (λ h. (eq_iff "sent" "suppressed").1 h, λ h. ground arith), inl refl)
pick_iff false true apart = (
  (λ h. (eq_iff "suppressed" "sent").1 h, λ h. ground arith),
  (λ h. refl, λ h. refl),
  inr (inl refl),
)
pick_iff false false apart = (
  (λ h. (eq_iff "failed" "sent").1 h, λ h. ground arith),
  (λ h. (eq_iff "failed" "suppressed").1 h, λ h. ground arith),
  inr (inr refl),
)

both-split : (a b : Bool) → (not a && b ≡ true) ↔ ((a ≡ false) × (b ≡ true))
both-split a b = (λ h. (ground arith, ground arith), λ h. ground arith)

not-both : (r : String) → (r == "sent") ≡ true → (r == "suppressed") ≡ false
not-both r h = subst (λ x. (x == "suppressed") ≡ false) (sym ((eq_iff r "sent").0 h)) refl

sent-not-all :
    (results : List String)
    → any (λ x. x == "sent") results ≡ true
    → all (λ x. x == "suppressed") results ≡ false
sent-not-all [] h = cc
sent-not-all (r ∷ rs) h = ground (arith, sent-not-all rs, not-both r)

-- A notification ends as `sent` exactly when a delivery was, as `suppressed` exactly when there
-- was a delivery and all were suppressed, and otherwise as `failed`, also when there was none.
pub final_status_iff :
    (results : List String)
    → ((final_status results ≡ "sent") ↔ Has "sent" results)
      × ((final_status results ≡ "suppressed")
          ↔ ((is_nil results ≡ false) × (all (λ status. status == "suppressed") results ≡ true)))
      × ((final_status results ≡ "sent")
          ⊎ (final_status results ≡ "suppressed")
          ⊎ (final_status results ≡ "failed"))
unfolding final_status
final_status_iff results =
    let sent = any (λ (x : String). x == "sent") results in
    let suppressed = all (λ (x : String). x == "suppressed") results in
    let (is_sent, is_suppressed, cases) =
      pick_iff sent (not (is_nil results) && suppressed)
        (λ h. ground (arith, sent-not-all results h)) in
    let both = both-split (is_nil results) suppressed in
    (
      rw⁻¹ (any-contains "sent" results) is_sent,
      (λ h. both.0 (is_suppressed.0 h), λ h. is_suppressed.1 (both.1 h)),
      cases,
    )
