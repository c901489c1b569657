-- ===== src/Api/Notifications.antt =====
-- api/routes/notifications.py and api/routes/admin/notifications.py.
pub mod Clicks
pub mod Laws
mod Tests
use nudging_tool.Prelude.{
  ℕ, String, Bool, true, false, not, ◌&&◌, ◌||◌, Option, none, some, List, [], ◌∷◌, map, ◌==◌,
  contains, select, take, drop, leb, is_empty, if◌then◌else◌,
}
use nudging_tool.Text.{strip}
use nudging_tool.Json.{Dict, str, end, field}
use nudging_tool.Db.{Notification, Db}
use nudging_tool.Session.{
  Error, http_error, value_error, Result, ok, err, Exec, pure, raise, lift, query, modify, commit,
  scalar_one_or_none, except_value_error, ◌>>=◌, ◌>>◌,
}
use nudging_tool.Tracking.{split_dot, unsign_token}
use nudging_tool.Env.{Env, utc_now}
use nudging_tool.Publishers.Web.{tracking_secret}
use nudging_tool.Api.User.{JwtUser, owned_user_ids}

abbrev pub detail : String → Dict
detail text = field "detail" (str text) end

abbrev pub is_some : {A : Type 0} → Option A → Bool
is_some none = false
is_some (some a) = true

-- Newest first; rows of one time keep their order.
abbrev pub insert_newest : Notification → List Notification → List Notification
insert_newest n [] = n ∷ []
insert_newest n (x ∷ xs) =
    let rest = insert_newest n xs in if leb x.created_at n.created_at then n ∷ x ∷ xs else x ∷ rest

unfoldable pub sort_newest : List Notification → List Notification
sort_newest [] = []
sort_newest (n ∷ ns) = insert_newest n (sort_newest ns)

abbrev pub is_listed : JwtUser → Bool → Notification → Bool
is_listed user unread_only n =
    (contains n.user_id (owned_user_ids user) && not (is_some n.deleted_at))
    && (not unread_only || not (is_some n.read_at))

-- `list_notifications`
unfoldable pub list_notifications : JwtUser → (limit offset : ℕ) → Bool → Db → List Notification
unfolding sort_newest owned_user_ids
list_notifications user limit offset unread_only db =
    take limit (drop offset (sort_newest (select (is_listed user unread_only) db.notifications)))

abbrev pub optional_match : Option String → String → Bool
optional_match none text = true
optional_match (some wanted) text = text == wanted

abbrev pub is_listed_for_admin :
    (user_id family severity : Option String)
    → (include_deleted unread_only : Bool) → Notification
    → Bool
is_listed_for_admin user_id family severity include_deleted unread_only n =
    (optional_match user_id n.user_id && optional_match family n.family)
    && optional_match severity n.severity
    && (include_deleted || not (is_some n.deleted_at))
    && (not unread_only || not (is_some n.read_at))

-- `admin_list_notifications`
unfoldable pub admin_list_notifications :
    (user_id family severity : Option String)
    → (include_deleted unread_only : Bool) → (limit offset : ℕ) → Db
    → List Notification
unfolding sort_newest
admin_list_notifications user_id family severity include_deleted unread_only limit offset db =
    take limit (
      drop offset (
        sort_newest (
          select (is_listed_for_admin user_id family severity include_deleted unread_only)
            db.notifications)))

abbrev pub own_rows : String → JwtUser → Db → List Notification
own_rows id user db =
    select (λ (n : Notification). (n.id == id) && contains n.user_id (owned_user_ids user))
      db.notifications

abbrev pub found_or_404 : Option Notification → Exec Notification
found_or_404 none = raise (http_error 404 (detail "Notification not found"))
found_or_404 (some n) = pure n

-- `_get_own_notification`
unfoldable pub get_own_notification : String → JwtUser → Exec Notification
unfolding owned_user_ids
get_own_notification id user = do
  rows ← query (own_rows id user)
  found ← lift (scalar_one_or_none rows)
  found_or_404 found

-- The row after an assignment to its attributes.
abbrev pub store_notification : Notification → Db → Db
store_notification n db = record db {
  notifications = map (λ (x : Notification). if x.id == n.id then n else x) db.notifications;
}

abbrev pub save_notification : Notification → Exec Notification
save_notification n = do modify (store_notification n); commit; pure n

module _ (env : Env) where
  -- The second half of `mark_read`, on the loaded row.
  unfoldable pub read_row : Notification → Exec Notification
  read_row n = elim n.deleted_at [
    | some _ ↦ raise (http_error 410 (detail "Notification has been deleted"))
    | none ↦ elim n.read_at [
      | some _ ↦ pure n
      | none ↦ do now ← utc_now env; save_notification (record n { read_at = some now })
    ]
  ]

  unfoldable pub mark_read : String → JwtUser → Exec Notification
  unfolding get_own_notification read_row
  mark_read id user = do n ← get_own_notification id user; read_row n

  -- The second half of `soft_delete_notification`.
  unfoldable pub delete_row : Notification → Exec Notification
  delete_row n = elim n.deleted_at [
    | some _ ↦ pure n
    | none ↦ do now ← utc_now env; save_notification (record n { deleted_at = some now })
  ]

  unfoldable pub soft_delete_notification : String → JwtUser → Exec Notification
  unfolding get_own_notification delete_row
  soft_delete_notification id user = do n ← get_own_notification id user; delete_row n

  -- `(body.action or "").strip() or "default"`
  abbrev pub action_text : Option String → String
  action_text none = "default"
  action_text (some a) = if is_empty (strip a) then "default" else strip a

  -- The first click is kept.
  unfoldable pub click_row : Option String → Notification → Exec Notification
  click_row action n = elim n.clicked_at [
    | some _ ↦ pure n
    | none ↦ do
      now ← utc_now env
      save_notification
          (record n { clicked_at = some now; click_action = some (action_text action) })
  ]

  -- The handler once the token is unsigned.
  unfoldable pub click_by_id : (id : String) → (action : Option String) → Exec Notification
  unfolding click_row
  click_by_id id action = do
    rows ← query (λ db. select (λ (n : Notification). n.id == id) db.notifications)
    found ← lift (scalar_one_or_none rows)
    n ← found_or_404 found
    click_row action n

  abbrev pub unsign_parts : (token : String) → Option (String × String) → Exec String
  unsign_parts token none = raise (value_error "invalid tracking token format")
  unsign_parts token (some parts) = do
    secret ← tracking_secret env
    lift (unsign_token env.codec secret token)

  -- `unsign_click_tracking_token`: the token is split before the secret is read.
  unfoldable pub unsign_click : (token : String) → Exec String
  unsign_click token = unsign_parts token (split_dot token)

  -- `track_click`: a `ValueError` of the token is a 400.
  unfoldable pub track_click : (token : String) → (action : Option String) → Exec Notification
  unfolding click_by_id
  track_click token action = do
    id ←
        except_value_error (unsign_click token) (λ message. raise (http_error 400 (detail message)))
    click_by_id id action
