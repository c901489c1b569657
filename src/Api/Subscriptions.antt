-- ===== src/Api/Subscriptions.antt =====
-- api/routes/webpush.py: push subscriptions of the caller.
pub mod Laws
use nudging_tool.Prelude.{
  String, Bool, true, false, ◌&&◌, Option, none, some, List, [], ◌∷◌, ◌++◌, map, ◌==◌, contains,
  select, if◌then◌else◌,
}
use nudging_tool.Text.{strip}
use nudging_tool.Db.{WebPushSubscription, Db}
use nudging_tool.Session.{
  Exec, pure, lift, query, modify, commit, for_each, scalar_one_or_none, ◌>>=◌, ◌>>◌,
}
use nudging_tool.Env.{Env, uuid4}
use nudging_tool.Engine.Resolve.{same_option}
use nudging_tool.Publishers.Web.{disable_subscription}
use nudging_tool.Api.User.{JwtUser, owned_user_ids}

pub record SubscribeRequest : Type 0 where
  pub endpoint : String
  pub p256dh : String
  pub auth : String
  pub community_id : Option String

-- The rows of the caller for an endpoint and a community (or for none).
abbrev pub is_row_of : JwtUser → String → Option String → WebPushSubscription → Bool
is_row_of user endpoint community_id row =
    contains row.user_id (owned_user_ids user)
    && (row.endpoint == endpoint)
    && same_option row.community_id community_id

abbrev pub subscription_rows : JwtUser → String → Option String → Db → List WebPushSubscription
subscription_rows user endpoint community_id db =
    select (is_row_of user endpoint community_id) db.subscriptions

-- `rows_by_user_id.get(id)`: the last row of the id, as the dict is built in order.
unfoldable pub row_of_user : String → List WebPushSubscription → Option WebPushSubscription
row_of_user id [] = none
row_of_user id (row ∷ rows) = elim (row_of_user id rows) [
  | some later ↦ some later
  | none ↦ if row.user_id == id then some row else none
]

abbrev pub add_subscription : WebPushSubscription → Db → Db
add_subscription x db = record db { subscriptions = x ∷ db.subscriptions }

abbrev pub refresh_subscription : String → SubscribeRequest → Db → Db
refresh_subscription id body db = record db {
  subscriptions =
      map
        (λ (x : WebPushSubscription).
          if x.id == id
          then record x { p256dh = body.p256dh; auth = body.auth; enabled = true }
          else x)
        db.subscriptions;
}

module _ (env : Env) where
  -- One turn of the loop over the caller's ids.
  unfoldable pub subscribe_as : SubscribeRequest → List WebPushSubscription → String → Exec Unit
  subscribe_as body rows user_id = elim (row_of_user user_id rows) [
    | some row ↦ modify (refresh_subscription row.id body)
    | none ↦ do
      id ← uuid4 env
      modify (
          add_subscription (record {
            id = id;
            user_id = user_id;
            community_id = body.community_id;
            endpoint = body.endpoint;
            p256dh = body.p256dh;
            auth = body.auth;
            enabled = true;
          }))
  ]

  unfoldable pub subscribe : SubscribeRequest → JwtUser → Exec Unit
  unfolding subscribe_as row_of_user owned_user_ids
  subscribe body user = do
    rows ← query (subscription_rows user body.endpoint body.community_id)
    for_each (subscribe_as body rows) (owned_user_ids user)
    commit

abbrev disable_found : Option WebPushSubscription → Exec Unit
disable_found none = pure tt
disable_found (some row) = do modify (disable_subscription row.id); commit

unfoldable pub unsubscribe : String → Option String → JwtUser → Exec Unit
unfolding owned_user_ids
unsubscribe endpoint community_id user = do
  rows ← query (subscription_rows user endpoint community_id)
  found ← lift (scalar_one_or_none rows)
  disable_found found

-- `vapid_public_key`
unfoldable pub vapid_public_key : Env → String
vapid_public_key env = strip env.settings.vapid_public_key
