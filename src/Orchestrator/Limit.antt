-- ===== src/Orchestrator/Limit.antt =====
-- The daily limit: how many deliveries a user was sent today, and `can_send_today` of
-- orchestrator/policies.py.
pub mod Laws
use nudging_tool.Prelude.{
  ℕ, Char, code, String, ◌<>◌, Bool, true, false, ◌&&◌, ◌||◌, Option, none, some, List, [], ◌∷◌,
  ◌==◌, length, select, eqb, ltb, is_empty, if◌then◌else◌,
}
use nudging_tool.Db.{DeliveryLog, Db}
use nudging_tool.Env.{Env}

-- `sent_today < max_per_day`
abbrev pub can_send_today : ℕ → ℕ → Bool
can_send_today sent_today max_per_day = ltb sent_today max_per_day

module _ (env : Env) where
  abbrev pub is_sent_on : ℕ → Option ℕ → Bool
  is_sent_on today none = false
  is_sent_on today (some sent_at) = eqb (env.db_day sent_at) today

  -- The rows that count against a destination.
  abbrev pub counts : String → ℕ → DeliveryLog → Bool
  counts dest_prefix today d =
      (d.status == "sent")
      && env.like (dest_prefix <> "%") d.destination
      && is_sent_on today d.sent_at

  unfoldable pub sent_count : String → ℕ → Db → ℕ
  sent_count dest_prefix today db = length (select (counts dest_prefix today) db.deliveries)
