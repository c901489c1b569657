-- ===== src/Api/Subscriptions/Laws.antt =====
-- What `subscribe` leaves for a caller, and what `unsubscribe` makes of it.
use nudging_tool.Prelude.{
  ◌+◌, String, ◌≡◌, refl, true, Option, none, some, [], ◌∷◌, contains, arith, eq_iff, Option-cases,
  inl, inr,
}
use nudging_tool.Db.{WebPushSubscription, Db}
use nudging_tool.Session.{
  multiple_results_found, Session, err, modify, commit, for_each, violation, scalar_one_or_none,
  ◌>>=◌,
}
use nudging_tool.Env.{Env, uuid4}
use nudging_tool.Engine.Resolve.{same_option}
use nudging_tool.Api.User.{JwtUser, owned_user_ids}
use nudging_tool.Api.Subscriptions.{
  SubscribeRequest, subscription_rows, row_of_user, add_subscription, subscribe_as, subscribe,
  unsubscribe, is_row_of,
}

commit-working : (s : Session) → (commit s).1.working ≡ s.working
unfolding commit
commit-working s = elim (Option-cases (violation s.working)) [
  | inl e ↦ rw e refl
  | inr (c, e) ↦ rw e refl
]

same_option_refl : (o : Option String) → same_option o o ≡ true
same_option_refl none = refl
same_option_refl (some a) = (eq_iff a a).1 refl

own_row :
    (user : JwtUser) (endpoint : String) (community_id : Option String) (row : WebPushSubscription)
    → contains row.user_id (owned_user_ids user) ≡ true
    → row.endpoint ≡ endpoint
    → row.community_id ≡ community_id
    → is_row_of user endpoint community_id row ≡ true
own_row user endpoint community_id row h e c =
    rw (h, e, c, (eq_iff endpoint endpoint).1 refl, same_option_refl community_id) refl

-- The rows that the query of `unsubscribe` finds once two of the caller's ids have a new one.
found_twice :
    (user : JwtUser) (x y : WebPushSubscription) (db : Db)
    → contains x.user_id (owned_user_ids user) ≡ true
    → contains y.user_id (owned_user_ids user) ≡ true
    → x.endpoint ≡ y.endpoint
    → x.community_id ≡ y.community_id
    → scalar_one_or_none (
        subscription_rows user y.endpoint y.community_id
          (add_subscription x (add_subscription y db)))
      ≡ err multiple_results_found
found_twice user x y db hx hy e c =
    rw
      (
        own_row user y.endpoint y.community_id x hx e c,
        own_row user y.endpoint y.community_id y hy refl refl,
      )
      refl

unsubscribe-found_twice :
    (endpoint : String) (community_id : Option String) (user : JwtUser) (t : Session)
    → scalar_one_or_none (subscription_rows user endpoint community_id t.working)
      ≡ err multiple_results_found
    → (unsubscribe endpoint community_id user t).0 ≡ err multiple_results_found
unfolding unsubscribe ◌>>=◌
unsubscribe-found_twice endpoint community_id user t h = rw h refl

-- A row that `subscribe` writes.
abbrev new_row : SubscribeRequest → (id user_id : String) → WebPushSubscription
new_row body id user_id = record {
  id = id;
  user_id = user_id;
  community_id = body.community_id;
  endpoint = body.endpoint;
  p256dh = body.p256dh;
  auth = body.auth;
  enabled = true;
}

module _ (env : Env) (body : SubscribeRequest) (user : JwtUser) (s : Session) (a b : String)
    (two : owned_user_ids user ≡ a ∷ b ∷ [])
    (unknown : subscription_rows user body.endpoint body.community_id s.working ≡ []) where
  subscribe-rows :
      (subscribe env body user s).1.working
      ≡ add_subscription
          (new_row body (env.uuid (s.draws + 1)) b)
          (add_subscription (new_row body (env.uuid s.draws) a) s.working)
  unfolding subscribe ◌>>=◌ for_each subscribe_as row_of_user uuid4 modify
  subscribe-rows = rw (two, unknown) (commit-working _)

  own_b : contains b (owned_user_ids user) ≡ true
  own_b = rw two (ground (arith, eq_iff b b))

  own_a : contains a (owned_user_ids user) ≡ true
  own_a = rw two (ground (arith, eq_iff a a))

  -- A caller with a user name that differs from its subject, who subscribes to an endpoint that it
  -- had no row for, cannot unsubscribe: the query finds the two rows that `subscribe` wrote, and
  -- raises.
  pub unsubscribe-subscribe :
      (unsubscribe body.endpoint body.community_id user (subscribe env body user s).1).0
      ≡ err multiple_results_found
  unsubscribe-subscribe =
      unsubscribe-found_twice body.endpoint body.community_id user (subscribe env body user s).1 (
        rw subscribe-rows (
          found_twice user (new_row body (env.uuid (s.draws + 1)) b)
            (new_row body (env.uuid s.draws) a) s.working own_b own_a refl refl))
