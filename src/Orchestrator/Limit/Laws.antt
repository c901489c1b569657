-- ===== src/Orchestrator/Limit/Laws.antt =====
-- How a delivery counts against the daily limit.
use nudging_tool.Prelude.{
  ℕ, ◌+◌, String, ◌<>◌, ◌≡◌, ap, ◌∙◌, Bool, ◌&&◌, ◌==◌, List, ◌∷◌, length, select, Bool-cases, inl,
  inr, arith, if◌then◌else◌,
}
use nudging_tool.Db.{DeliveryLog}
use nudging_tool.Session.{Session, ok}
use nudging_tool.Env.{Env}
use nudging_tool.Delivery.{Channel, DeliveryJob, PublishResult}
use nudging_tool.Publishers.{publish}
use nudging_tool.Publishers.Logged.{Delivered, publish-Delivered}
use nudging_tool.Orchestrator.Limit.{is_sent_on, counts, sent_count}

module _ (env : Env) (dest_prefix : String) (today : ℕ) where
  -- Whether an answer for a job counts: it was sent on the day, to a destination that the pattern of
  -- the prefix finds.
  abbrev pub is_counted : DeliveryJob → PublishResult → Bool
  is_counted job r =
      (r.status == "sent")
      && env.like (dest_prefix <> "%") job.destination
      && is_sent_on env today r.sent_at

  counts-answer :
      (job : DeliveryJob) (r : PublishResult) (before : List DeliveryLog) (s : Session)
      → (d : Delivered before job r s) → counts env dest_prefix today d.row ≡ is_counted job r
  counts-answer job r before s d i =
      (d.status i == "sent")
      && env.like (dest_prefix <> "%") (d.destination i)
      && is_sent_on env today (d.sent_at i)

  length-counts :
      (d : DeliveryLog) (ds : List DeliveryLog)
      → length (select (counts env dest_prefix today) (d ∷ ds))
        ≡ (if counts env dest_prefix today d then 1 else 0)
          + length (select (counts env dest_prefix today) ds)
  length-counts d ds = elim (Bool-cases (counts env dest_prefix today d)) [
    | inl e ↦ rw e (omega arith)
    | inr e ↦ rw e (omega arith)
  ]

  -- A publisher that answers raises the count of a prefix and a day by one when its answer is `sent`,
  -- on that day, for a destination that the pattern of the prefix finds, and by nothing otherwise.
  pub publish-sent_count :
      (channel : Channel) (job : DeliveryJob) (s : Session) (r : PublishResult)
      → (publish env channel job s).0 ≡ ok r
      → sent_count env dest_prefix today (publish env channel job s).1.committed
        ≡ (if is_counted job r then 1 else 0) + sent_count env dest_prefix today s.working
  unfolding sent_count
  publish-sent_count channel job s r h =
      let d = publish-Delivered env channel job s r h in
      ap (λ rows. length (select (counts env dest_prefix today) rows)) d.rows
      ∙ length-counts d.row s.working.deliveries
      ∙ ap
          (λ b.
            (if b then 1 else 0)
            + length (select (counts env dest_prefix today) s.working.deliveries))
          (counts-answer job r s.working.deliveries _ d)
