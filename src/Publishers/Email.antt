-- ===== src/Publishers/Email.antt =====
-- publishers/email/worker.py: `send_email` and the checks of `_send_email_sync`. The exchange with
-- the mail server is a parameter, `send_mail` of `Env`, which gives the text of an exception.
use nudging_tool.Prelude.{ℕ, ◌+◌, String, Option, none, some, is_empty, if◌then◌else◌}
use nudging_tool.Session.{Exec, ok, pure, modify, commit, ◌>>=◌, ◌>>◌}
use nudging_tool.Env.{Env, utc_now}
use nudging_tool.Delivery.{DeliveryJob, PublishResult, add_delivery}

module _ (env : Env) where
  -- The text of the exception that `_send_email_sync` raises, if it raises one.
  unfoldable pub send_email_sync : DeliveryJob → Exec (Option String)
  send_email_sync job s =
      if is_empty env.settings.smtp_host
      then (ok (some "Missing SMTP_HOST"), s)
      else if is_empty env.settings.email_from
      then (ok (some "Missing EMAIL_FROM"), s)
      else (ok (env.send_mail s.calls job.destination), record s { calls = s.calls + 1 })

  abbrev pub email_status : Option String → String
  email_status none = "sent"
  email_status (some error) = "failed"

  abbrev pub email_sent_at : ℕ → Option String → Option ℕ
  email_sent_at now none = some now
  email_sent_at now (some error) = none

  unfoldable pub send_email : DeliveryJob → Exec PublishResult
  unfolding send_email_sync
  send_email job = do
    now ← utc_now env
    error ← send_email_sync job
    modify (
        add_delivery (record {
          id = job.job_id;
          nudge_id = job.nudge_id;
          channel = "email";
          destination = job.destination;
          status = email_status error;
          error = error;
          created_at = now;
          sent_at = email_sent_at now error;
        }))
    commit
    pure (record { status = email_status error; sent_at = email_sent_at now error; error = error })
