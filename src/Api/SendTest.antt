-- ===== src/Api/SendTest.antt =====
-- api/routes/admin/webpush.py: `send_test`. The turn of its loop is that of `send_webpush`, which
-- keeps the last error too; the content of the push is left out.
pub mod Laws
mod Tests
use nudging_tool.Prelude.{
  ℕ, String, Bool, true, ◌&&◌, ◌||◌, Option, none, some, List, [], ◌∷◌, ◌==◌, select,
}
use nudging_tool.Db.{WebPushSubscription}
use nudging_tool.Session.{Exec, pure, query, commit, ◌>>=◌, ◌>>◌}
use nudging_tool.Env.{Env}
use nudging_tool.Engine.Resolve.{same_option, is_null}
use nudging_tool.Publishers.Web.{get_vapid, push_all}

pub record SendTestRequest : Type 0 where
  pub user_id : String
  pub community_id : Option String

pub record SendTestResponse : Type 0 where
  pub status : String
  pub sent : ℕ
  pub failed : ℕ

-- The filters of the query.
abbrev pub is_test_target : SendTestRequest → WebPushSubscription → Bool
is_test_target body sub = (sub.user_id == body.user_id) && sub.enabled && elim body.community_id [
  | none ↦ true
  | some c ↦ same_option sub.community_id (some c) || is_null sub.community_id
]

module _ (env : Env) where
  unfoldable pub test_push : List WebPushSubscription → Exec SendTestResponse
  test_push [] = pure (record { status = "no_subscriptions"; sent = 0; failed = 0 })
  test_push (sub ∷ subs) = do
    key ← get_vapid env
    t ← push_all env (sub ∷ subs) (record { sent = 0; failed = 0; last_error = none })
    commit
    pure (record { status = "ok"; sent = t.sent; failed = t.failed })

  -- `send_test`
  unfoldable pub send_test : SendTestRequest → Exec SendTestResponse
  unfolding test_push
  send_test body = do
    subs ← query (λ db. select (is_test_target body) db.subscriptions)
    test_push subs
