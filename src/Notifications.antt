-- ===== src/Notifications.antt =====
-- The administrator's notifications: app/application/services/notification_service.py, and the
-- queries and updates of app/infrastructure/db/repositories/notification_repository.py.
-- InstallmentPayments.Closure makes them.
pub mod Unread
use blanco_financas_api.Prelude.{
  ℕ, ltb, if◌then◌else◌, Bool, true, false, not, Option, none, some, List, [], ◌∷◌, map, length,
  filter_by, sort_by, take, drop,
}
use blanco_financas_api.Errors.{notification_not_found}
use blanco_financas_api.Store.{Notification, Store, by_key, merge}
use blanco_financas_api.Session.{Action, Clock, ◌>>=◌, ◌>>◌, commit, gets, modify, or_raise, pure}

abbrev pub notification_id : Notification → ℕ
notification_id n = n.id

abbrev pub is_unread : Notification → Bool
is_unread n = not n.is_read

unfoldable pub find_notification : ℕ → Store → Option Notification
unfolding by_key
find_notification wanted db = by_key notification_id wanted db.notifications

unfoldable pub unread_count : Store → ℕ
unread_count db = length (filter_by is_unread db.notifications)

-- `get_all` of the repository
unfoldable pub notifications_page : Bool → ℕ → ℕ → Store → List Notification
notifications_page unread_only limit offset db =
    let rows = if unread_only then filter_by is_unread db.notifications else db.notifications in
    take limit (drop offset (sort_by (λ a b. ltb b.created_at a.created_at) rows))

-- `NotificationListResult`
pub record NotificationListResult : Type 0 where
  pub notifications : List Notification
  pub total : ℕ
  pub unread : ℕ

-- `get_all` of the service, whose `total` is the length of the page
unfoldable pub list_notifications : Bool → ℕ → ℕ → Action NotificationListResult
unfolding notifications_page unread_count
list_notifications unread_only limit offset = do
  notifications ← gets (notifications_page unread_only limit offset)
  unread ← gets unread_count
  pure (record { notifications = notifications; total = length notifications; unread = unread })

unfoldable pub as_read : ℕ → Notification → Notification
as_read now n = record n { is_read = true; read_at = some now }

unfoldable pub put_marked : Notification → Store → Store
unfolding merge
put_marked n db = record db { notifications = merge notification_id n db.notifications }

unfoldable pub mark_as_read : Clock → ℕ → Action Notification
unfolding find_notification as_read put_marked
mark_as_read clock id = do
  found ← gets (find_notification id)
  notification ← or_raise found notification_not_found
  modify (put_marked (as_read clock.now notification))
  commit
  pure (as_read clock.now notification)

-- The update's row
unfoldable pub read_row : ℕ → Notification → Notification
unfolding as_read
read_row now n = if is_unread n then as_read now n else n

unfoldable pub mark_all_as_read : Clock → Action ℕ
unfolding read_row unread_count
mark_all_as_read clock = do
  count ← gets unread_count
  modify (λ db. record db { notifications = map (read_row clock.now) db.notifications })
  commit
  pure count
