-- ===== src/Orchestrator/Run/Nudge.antt =====
-- What becomes of a whole nudge: `orchestrate` reads its rows, builds its jobs, and decides.
use nudging_tool.Prelude.{
  ◌+◌, String, ◌≡◌, ap, sym, Bool, true, not, ◌||◌, Option, List, [], ◌∷◌, ◌==◌, select, ◌∙◌,
}
use nudging_tool.Db.{NudgeLog, Notification, UserPreference, Db}
use nudging_tool.Session.{Session, Result, ok, Exec, lift, scalar_one, and_then, ◌>>=◌}
use nudging_tool.Env.{Env, ActiveKind, utc_now}
use nudging_tool.Delivery.{DeliveryJob}
use nudging_tool.Orchestrator.Kinds.{enabled_kinds, get_user_pref, rule_kind, rules_by_id}
use nudging_tool.Orchestrator.Limit.{can_send_today, sent_count}
use nudging_tool.Orchestrator.Jobs.{web_destination, build_delivery_jobs}
use nudging_tool.Orchestrator.Jobs.Laws.{build_delivery_jobs-Carries}
use nudging_tool.Orchestrator.Run.{
  set_notification_status, max_per_day, is_disabled, decide, orchestrate,
}
use nudging_tool.Orchestrator.Run.Laws.{decide-Suppressed}

bind-ok :
    {A B : Type 0} (m : Exec A) (f : A → Exec B) (s : Session) (a : A) (t : Session)
    → m s ≡ (ok a, t)
    → (m >>= f) s ≡ f a t
unfolding ◌>>=◌
bind-ok {A} m f s a t h = ap (λ (o : Result A × Session). and_then o.0 f o.1) h

module _ (env : Env) (id : String) (s : Session) (n : NudgeLog) (x : Notification)
    (active : List ActiveKind)
    (logged : select (λ (l : NudgeLog). l.id == id) s.working.nudges ≡ n ∷ [])
    (linked : select (λ (l : Notification). l.nudge_log_id == id) s.working.notifications ≡ x ∷ [])
    (known : env.active_kinds ≡ ok active) where
  abbrev pref : Option UserPreference
  pref = get_user_pref env s.working n.user_id n.community_id

  -- Whether the kind of the nudge's rule is switched off.
  abbrev pub disabled : Bool
  disabled = is_disabled (rule_kind (rules_by_id n.rule_id s.working)) (enabled_kinds pref active)

  -- Whether the user may be told once more today.
  abbrev pub allowed : Bool
  allowed =
      can_send_today
        (sent_count env (web_destination n.user_id n.community_id)
          (env.local_day (env.clock s.ticks)) s.working)
        (max_per_day pref)

  abbrev reading : Session
  reading = record s { ticks = s.ticks + 1 }

  orchestrate-decide :
      (jobs : List DeliveryJob)
      → (build_delivery_jobs env n x pref reading).0 ≡ ok jobs
      → orchestrate env id s
        ≡ decide env x disabled allowed jobs (build_delivery_jobs env n x pref reading).1
  unfolding orchestrate ◌>>=◌ utc_now
  orchestrate-decide jobs built =
      bind-ok (lift (scalar_one (select (λ (l : NudgeLog). l.id == id) s.working.nudges))) _ s n s
        (ap (λ rows. (scalar_one rows, s)) logged)
      ∙ bind-ok
          (lift (
            scalar_one
              (select (λ (l : Notification). l.nudge_log_id == id) s.working.notifications)))
          _ s x s (ap (λ rows. (scalar_one rows, s)) linked)
      ∙ bind-ok (lift env.active_kinds) _ s active s (ap (λ r. (r, s)) known)
      ∙ bind-ok (build_delivery_jobs env n x pref) _ reading jobs
          (build_delivery_jobs env n x pref reading).1
          (ap (λ r. (r, (build_delivery_jobs env n x pref reading).1)) built)

  -- A nudge whose kind its user has switched off, or that comes after the daily limit is reached,
  -- is not sent: an orchestration that ends returns no job, calls no push or mail service, and
  -- leaves its notification durably `suppressed`. The nudge has one row and one
  -- notification, and the active kinds can be read.
  pub orchestrate-Suppressed :
      (disabled || not allowed) ≡ true
      → (sent : List DeliveryJob) → (orchestrate env id s).0 ≡ ok sent
      → (sent ≡ [])
        × ((orchestrate env id s).1.calls ≡ s.calls)
        × ((orchestrate env id s).1.committed.notifications
            ≡ (set_notification_status x.id "suppressed" s.working).notifications)
        × ((orchestrate env id s).1.working ≡ (orchestrate env id s).1.committed)
  orchestrate-Suppressed held sent h =
      let (jobs, built, targets, carries, (durable, same, calls)) =
        build_delivery_jobs-Carries env n x pref reading in
      let run = orchestrate-decide jobs built in
      let t : Session = (build_delivery_jobs env n x pref reading).1 in
      let (none_sent, done) =
        decide-Suppressed env x jobs t disabled allowed held sent (sym (ap (λ o. o.0) run) ∙ h) in
      (
        none_sent,
        ap (λ o. o.1.calls) run ∙ done.calls ∙ calls,
        ap (λ o. o.1.committed.notifications) run
            ∙ done.notifications
            ∙ ap (λ (d : Db). (set_notification_status x.id "suppressed" d).notifications) same,
        ap (λ o. o.1.working) run ∙ done.clean ∙ sym (ap (λ o. o.1.committed) run),
      )
