-- ===== src/Api/Notifications/Laws.antt =====
-- What the listing of notifications shows, and that reading, deleting and clicking twice changes
-- nothing more.
use nudging_tool.Prelude.{
  ℕ, ◌+◌, ◌≤◌, String, ◌≡◌, Bool, true, Option, none, some, List, [], ◌∷◌, contains, length, leb,
  arith, All, All-select, All-take, All-drop, All-map, length-take-le, Bool-cases, Option-cases,
  inl, inr,
}
use nudging_tool.Db.{Notification, Db}
use nudging_tool.Session.{Session, ok, ◌>>=◌, modify, commit, violation}
use nudging_tool.Env.{Env, utc_now}
use nudging_tool.Api.User.{JwtUser, owned_user_ids}
use nudging_tool.Api.Notifications.{
  is_listed, insert_newest, sort_newest, list_notifications, read_row, delete_row, click_row,
  save_notification, store_notification, action_text,
}

All-insert_newest :
    (P : Notification → Type 0) (n : Notification) (ns : List Notification)
    → P n
    → All P ns
    → All P (insert_newest n ns)
All-insert_newest P n [] p h = (p, tt)
All-insert_newest P n (x ∷ xs) p h = elim (Bool-cases (leb x.created_at n.created_at)) [
  | inl le ↦ rw le ((p, h))
  | inr gt ↦ rw gt ((h.0, All-insert_newest P n xs p h.1))
]

All-sort_newest :
    (P : Notification → Type 0) (ns : List Notification) → All P ns → All P (sort_newest ns)
unfolding sort_newest
All-sort_newest P [] h = tt
All-sort_newest P (n ∷ ns) h = All-insert_newest P n (sort_newest ns) h.0 (All-sort_newest P ns h.1)

-- A notification that a caller may see: one of its own that is not deleted, and not read either
-- where only those are asked for.
abbrev pub Visible : JwtUser → Bool → Notification → Type 0
Visible user unread_only n =
    (contains n.user_id (owned_user_ids user) ≡ true)
    × (n.deleted_at ≡ none)
    × (unread_only ≡ true → n.read_at ≡ none)

listed-Visible :
    (user : JwtUser) (unread_only : Bool) (n : Notification)
    → is_listed user unread_only n ≡ true
    → Visible user unread_only n
listed-Visible user unread_only n h = (ground arith, ground arith, λ only. ground arith)

-- A page of the listing has `limit` rows at most, and every one is visible to the caller.
pub list_notifications-Visible :
    (user : JwtUser) (limit offset : ℕ) (unread_only : Bool) (db : Db)
    → (length (list_notifications user limit offset unread_only db) ≤ limit)
      × All (Visible user unread_only) (list_notifications user limit offset unread_only db)
unfolding list_notifications
list_notifications-Visible user limit offset unread_only db = (
  length-take-le limit _,
  All-take _ limit _ (
      All-drop _ offset _ (
        All-sort_newest _ _
          (All-map _ _ (listed-Visible user unread_only) _ (All-select _ db.notifications)))),
)

saved-row : (row m : Notification) (s : Session) → (save_notification row s).0 ≡ ok m → m ≡ row
unfolding ◌>>=◌ modify commit
saved-row row m s h = elim (Option-cases (violation (store_notification row s.working))) [
  | inl e ↦ ground arith
  | inr (c, e) ↦ ground arith
]

-- A row as a second request finds it, after a first request that answered with it.
module _ (env : Env) (n : Notification) (s : Session) where
  -- Reading a notification that was read answers with the same row, and changes nothing.
  pub read_row_idem :
      (m : Notification)
      → (read_row env n s).0 ≡ ok m
      → (t : Session) → read_row env m t ≡ (ok m, t)
  unfolding read_row ◌>>=◌ utc_now
  read_row_idem m h t = elim (Option-cases n.deleted_at) [
    | inr (d, e) ↦ ground arith
    | inl e ↦ elim (Option-cases n.read_at) [
      | inr (r, e') ↦ ground arith
      | inl e' ↦ ground (
        arith,
        saved-row (record n { read_at = some (env.clock s.ticks) }) m
            (record s { ticks = s.ticks + 1 }) (ground arith),
      )
    ]
  ]

  -- Deleting twice keeps the time of the first deletion, and changes nothing.
  pub delete_row_idem :
      (m : Notification)
      → (delete_row env n s).0 ≡ ok m
      → (t : Session) → delete_row env m t ≡ (ok m, t)
  unfolding delete_row ◌>>=◌ utc_now
  delete_row_idem m h t = elim (Option-cases n.deleted_at) [
    | inr (d, e) ↦ ground arith
    | inl e ↦ ground (
      arith,
      saved-row (record n { deleted_at = some (env.clock s.ticks) }) m
          (record s { ticks = s.ticks + 1 }) (ground arith),
    )
  ]

  -- A second click, of whatever action, keeps the time and the action of the first.
  pub click_row_first :
      (action later : Option String) (m : Notification)
      → (click_row env action n s).0 ≡ ok m
      → (t : Session) → click_row env later m t ≡ (ok m, t)
  unfolding click_row ◌>>=◌ utc_now
  click_row_first action later m h t = elim (Option-cases n.clicked_at) [
    | inr (d, e) ↦ ground arith
    | inl e ↦ ground (
      arith,
      saved-row
          (record n {
            clicked_at = some (env.clock s.ticks);
            click_action = some (action_text env action);
          })
          m (record s { ticks = s.ticks + 1 }) (ground arith),
    )
  ]
