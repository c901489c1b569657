-- ===== src/Publishers/Logged.antt =====
-- What a delivery leaves in the delivery log.
use nudging_tool.Prelude.{
  ℕ, String, ◌≡◌, refl, ap, Option, none, some, List, [], ◌∷◌, inl, inr, Bool-cases, is_empty,
}
use nudging_tool.Db.{DeliveryLog, WebPushSubscription}
use nudging_tool.Session.{Error, Session, ok, pure, raise, modify, commit, ◌>>◌}
use nudging_tool.Session.Hoare.{
  Hoare, Hoare-pure, Hoare-raise, Hoare-query, Hoare-if, Hoare-modify, Hoare-commit, Hoare-bind,
  Hoare-ok,
}
use nudging_tool.Env.{Env, PushOutcome, delivered, refused, broken, utc_now}
use nudging_tool.Delivery.{
  add_delivery, Channel, web, email, telegram, whatsapp, DeliveryJob, PublishResult,
}
use nudging_tool.Publishers.{publish}
use nudging_tool.Publishers.Web.{
  Tally, is_gone, click_token, tracking_secret, get_vapid, push, count_push, push_all, push_to,
  push_status, push_sent_at, send_webpush,
}
use nudging_tool.Publishers.Email.{email_status, email_sent_at, send_email_sync, send_email}

-- The transaction has these rows in its delivery log.
abbrev Has : List DeliveryLog → Session → Type 0
Has rows s = s.working.deliveries ≡ rows

Any : Error → Session → Type 0
Any e s = Unit

-- One durable row more: that of the job, with the status, the time and the error of the result, and
-- nothing is unsaved.
pub record Delivered (before : List DeliveryLog) (job : DeliveryJob) (r : PublishResult)
    (s : Session) : Type 0 where
  pub row : DeliveryLog
  pub rows : s.committed.deliveries ≡ row ∷ before
  pub clean : s.working ≡ s.committed
  pub id : row.id ≡ job.job_id
  pub nudge_id : row.nudge_id ≡ job.nudge_id
  pub destination : row.destination ≡ job.destination
  pub status : row.status ≡ r.status
  pub sent_at : row.sent_at ≡ r.sent_at
  pub error : row.error ≡ r.error

module _ (env : Env) (rows : List DeliveryLog) where
  utc_now-Has : Hoare (Has rows) (utc_now env) (λ _. Has rows) Any
  unfolding utc_now
  utc_now-Has = record { at = λ s h. h }

  pure-Has : {A : Type 0} (a : A) → Hoare (Has rows) (pure a) (λ _. Has rows) Any
  pure-Has a = Hoare-pure a (λ s h. h)

  raise-Has : {A : Type 0} (e : Error) → Hoare {A = A} (Has rows) (raise e) (λ _. Has rows) Any
  unfolding Any
  raise-Has e = Hoare-raise e (λ s h. tt)

  tracking_secret-Has : Hoare (Has rows) (tracking_secret env) (λ _. Has rows) Any
  unfolding tracking_secret Any
  tracking_secret-Has = search (Hoare-if, pure-Has, raise-Has) depth 8

  click_token-Has : (id : Option String) → Hoare (Has rows) (click_token env id) (λ _. Has rows) Any
  unfolding click_token
  click_token-Has none = Hoare-pure _ (λ s h. h)
  click_token-Has (some id) =
      Hoare-if (is_empty id) _ _ (λ _. Hoare-pure _ (λ s h. h))
        (λ _. Hoare-bind _ _ tracking_secret-Has (λ secret. Hoare-pure _ (λ s h. h)))

  get_vapid-Has : Hoare (Has rows) (get_vapid env) (λ _. Has rows) Any
  unfolding get_vapid Any
  get_vapid-Has = search (Hoare-if, pure-Has, raise-Has) depth 8

  push-Has : (sub : WebPushSubscription) → Hoare (Has rows) (push env sub) (λ _. Has rows) Any
  unfolding push
  push-Has sub = record { at = λ s h. h }

  count_push-Has :
      (sub : WebPushSubscription) (outcome : PushOutcome) (t : Tally)
      → Hoare (Has rows) (count_push env sub outcome t) (λ _. Has rows) Any
  unfolding count_push
  count_push-Has sub delivered t = Hoare-pure _ (λ s h. h)
  count_push-Has sub (refused code error) t =
      Hoare-if (is_gone code) _ _
        (λ _.
          Hoare-bind {Q = λ _. Has rows} _ _ (Hoare-modify _ (λ s h. h))
            (λ _. Hoare-pure _ (λ s h. h)))
        (λ _. Hoare-pure _ (λ s h. h))
  count_push-Has sub (broken e) t = raise-Has e

  push_all-Has :
      (subs : List WebPushSubscription) (t : Tally)
      → Hoare (Has rows) (push_all env subs t) (λ _. Has rows) Any
  unfolding push_all
  push_all-Has [] t = Hoare-pure _ (λ s h. h)
  push_all-Has (sub ∷ subs) t =
      Hoare-bind _ _ (push-Has sub)
        λ outcome. Hoare-bind _ _ (count_push-Has sub outcome t) (push_all-Has subs)

  commit-Has : Hoare (Has rows) commit (λ _. Has rows) Any
  unfolding Any
  commit-Has = Hoare-commit (λ s h valid. h) (λ c s h. tt)

  push_to-Has :
      (subs : List WebPushSubscription) → Hoare (Has rows) (push_to env subs) (λ _. Has rows) Any
  unfolding push_to
  push_to-Has [] = Hoare-pure _ (λ s h. h)
  push_to-Has (sub ∷ subs) =
      Hoare-bind _ _ (push_all-Has (sub ∷ subs) _)
        λ t. Hoare-bind _ _ commit-Has (λ _. Hoare-pure _ (λ s h. h))

  send_email_sync-Has :
      (job : DeliveryJob) → Hoare (Has rows) (send_email_sync env job) (λ _. Has rows) Any
  unfolding send_email_sync
  send_email_sync-Has job = record {
    at = λ s h. elim (Bool-cases (is_empty env.settings.smtp_host)) [
      | inl none_set ↦ rw none_set h
      | inr host ↦ elim (Bool-cases (is_empty env.settings.email_from)) [
        | inl none_set ↦ rw (host, none_set) h
        | inr sender ↦ rw (host, sender) h
      ]
    ];
  }

-- The row of a job, as both publishers write it.
abbrev row_for : DeliveryJob → String → ℕ → PublishResult → DeliveryLog
row_for job channel now r = record {
  id = job.job_id;
  nudge_id = job.nudge_id;
  channel = channel;
  destination = job.destination;
  status = r.status;
  error = r.error;
  created_at = now;
  sent_at = r.sent_at;
}

module _ (rows : List DeliveryLog) (job : DeliveryJob) where
  -- The end of both publishers.
  log-Delivered :
      (channel : String) (now : ℕ) (r : PublishResult)
      → Hoare
          (Has rows)
          (do modify (add_delivery (row_for job channel now r)); commit; pure r)
          (Delivered rows job)
          Any
  unfolding Any
  log-Delivered channel now r =
      Hoare-bind {Q = λ _. Has (row_for job channel now r ∷ rows)} _ _
        (Hoare-modify _ (λ s h. ap (λ ds. row_for job channel now r ∷ ds) h))
        λ _.
          Hoare-bind
            {Q = λ _ s.
              (s.committed.deliveries ≡ row_for job channel now r ∷ rows)
              × (s.working ≡ s.committed)}
            _ _ (Hoare-commit (λ s h valid. (h, refl)) (λ c s h. tt))
            λ _. Hoare-pure _ (λ s h. record {
              row = row_for job channel now r;
              rows = h.0;
              clean = h.1;
              id = refl;
              nudge_id = refl;
              destination = refl;
              status = refl;
              sent_at = refl;
              error = refl;
            })

module _ (env : Env) (rows : List DeliveryLog) where
  send_email-Delivered :
      (job : DeliveryJob) → Hoare (Has rows) (send_email env job) (Delivered rows job) Any
  unfolding send_email
  send_email-Delivered job = Hoare-bind _ _ (utc_now-Has env rows) λ now.
      Hoare-bind _ _ (send_email_sync-Has env rows job) λ error.
        log-Delivered rows job "email" now (record {
          status = email_status env error;
          sent_at = email_sent_at env now error;
          error = error;
        })

  send_webpush-Delivered :
      (job : DeliveryJob) → Hoare (Has rows) (send_webpush env job) (Delivered rows job) Any
  unfolding send_webpush
  send_webpush-Delivered job = Hoare-bind _ _ (utc_now-Has env rows) λ now.
      Hoare-bind {Q = λ _. Has rows} _ _ (Hoare-query _ (λ s h. h)) λ subs.
        Hoare-bind _ _ (click_token-Has env rows job.notification_id) λ token.
          Hoare-bind _ _ (get_vapid-Has env rows) λ key.
            Hoare-bind _ _ (push_to-Has env rows subs) λ t.
              log-Delivered rows job "webpush" now (record {
                status = push_status env t;
                sent_at = push_sent_at env now t;
                error = t.last_error;
              })

  publish-Hoare :
      (channel : Channel) (job : DeliveryJob)
      → Hoare (Has rows) (publish env channel job) (Delivered rows job) Any
  unfolding publish Any
  publish-Hoare web job = send_webpush-Delivered job
  publish-Hoare email job = send_email-Delivered job
  publish-Hoare telegram job = Hoare-raise _ (λ s h. tt)
  publish-Hoare whatsapp job = Hoare-raise _ (λ s h. tt)

-- A publisher that answers, with success or failure, has made one more row of the delivery log
-- durable, for its job, which says what the answer says; nothing else is added to the log.
pub publish-Delivered :
    (env : Env) (channel : Channel) (job : DeliveryJob) (s : Session)
    → (r : PublishResult) → (publish env channel job s).0 ≡ ok r
    → Delivered s.working.deliveries job r (publish env channel job s).1
publish-Delivered env channel job s r h =
    Hoare-ok (publish-Hoare env s.working.deliveries channel job) s refl r h
