-- ===== src/Api/SendTest/Tests.antt =====
-- A test push to two subscriptions, of which one is gone.
use nudging_tool.Prelude.{
  ◌+◌, ◌≡◌, refl, true, false, none, some, [], ◌∷◌, length, eqb, if◌then◌else◌,
}
use nudging_tool.Text.{strip, is_space}
use nudging_tool.Db.{WebPushSubscription}
use nudging_tool.Session.{Session, ok, pure, violation}
use nudging_tool.Env.{Env, delivered, refused}
use nudging_tool.Publishers.Web.{get_vapid}
use nudging_tool.Samples.{db, env, start}
use nudging_tool.Api.SendTest.{SendTestRequest, SendTestResponse, send_test}
use nudging_tool.Api.SendTest.Laws.{
  pushes, is_delivered, is_refused, gone_ids, disable_all, send_test-counts,
}

abbrev phone : WebPushSubscription
phone = record {
  id = "w1";
  user_id = "u1";
  community_id = none;
  endpoint = "https://push.example.com/1";
  p256dh = "key";
  auth = "auth";
  enabled = true;
}

abbrev laptop : WebPushSubscription
laptop = record phone { id = "w2"; endpoint = "https://push.example.com/2" }

abbrev disabled_laptop : WebPushSubscription
disabled_laptop = record laptop { enabled = false }

-- The second push is answered by 410.
abbrev half_gone : Env
half_gone = record env { webpush = λ n _. if eqb n 0 then delivered else refused (some 410) "gone" }

abbrev subscribed : Session
subscribed = start (record db { subscriptions = phone ∷ laptop ∷ [] })

abbrev to_ada : SendTestRequest
to_ada = record { user_id = "u1"; community_id = some "c1" }

send_test-counts_example :
    (r : SendTestResponse) × (t : Session) × (send_test half_gone to_ada subscribed ≡ (ok r, t))
    × (r.sent ≡ pushes is_delivered half_gone 0 (phone ∷ laptop ∷ []))
    × (r.failed ≡ pushes is_refused half_gone 0 (phone ∷ laptop ∷ []))
    × (t.calls ≡ subscribed.calls + length (phone ∷ laptop ∷ []))
    × (t.committed ≡ record subscribed.working {
      subscriptions =
          disable_all
            (gone_ids half_gone subscribed.calls (phone ∷ laptop ∷ []))
            subscribed.working.subscriptions;
    })
unfolding get_vapid strip is_space violation pure
send_test-counts_example =
    send_test-counts half_gone to_ada "private" subscribed phone (laptop ∷ []) refl refl refl refl

one_disabled :
    disable_all (gone_ids half_gone 0 (phone ∷ laptop ∷ [])) (phone ∷ laptop ∷ [])
    ≡ phone ∷ disabled_laptop ∷ []
one_disabled = refl
