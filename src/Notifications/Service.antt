-- ===== src/Notifications/Service.antt =====
-- src/modules/notification/notification.service.ts and notification.controller.ts. The pipe has
-- parsed the identifier of a path.
use vnst_be.Base.{
  Bool, true, Option, none, some, Text, txt, text_eq, or_else, if◌then◌else◌, Exception,
  http_exception, Io, pure, throw, ◌>>=◌,
}
use vnst_be.Schema.Notification.{Notification, NotificationType}
use vnst_be.External.Models.{QueryOptions, CreateNotification, NotificationFilter}
use vnst_be.External.Infra.{Outside}
use vnst_be.Utils.Pagination.{OffsetQuery}
use vnst_be.Wallets.Controller.{TokenPayload}
use vnst_be.EventLogs.Queries.{Page, given}

-- src/modules/notification/dto/notification-query.dto.ts
pub record NotificationQuery : Type 0 where
  pub pagination : OffsetQuery
  pub wallet_id : Text
  pub type : Option NotificationType

abbrev pub wallet_missing : Exception
wallet_missing = http_exception 400 (txt "Wallet not found")

abbrev pub notification_missing : Exception
notification_missing = http_exception 404 (txt "Notification is not found")

abbrev pub authorization_failed : Exception
authorization_failed = http_exception 401 (txt "Authorization failed!")

module _ {W : Type 0} (o : Outside W) where
  unfoldable pub create : CreateNotification → Io W Notification
  create dto = o.notifications.create dto

  unfoldable pub notification_filter : NotificationQuery → NotificationFilter
  notification_filter query = record { wallet = query.wallet_id; type = query.type }

  unfoldable pub notification_options : NotificationQuery → QueryOptions
  notification_options query = record {
    skip = some query.pagination.offset;
    limit = some query.pagination.limit;
    sort = some (or_else (given query.pagination.sort) (txt "-createdAt"));
  }

  unfoldable pub find_all : NotificationQuery → Io W (Page Notification)
  find_all query = do
    rows ← o.notifications.find (notification_filter query) (notification_options query)
    total ← o.notifications.count (notification_filter query)
    pure (record { rows = rows; total = total })

  unfoldable pub update_one : Text → Bool → Io W (Option Notification)
  update_one id read = o.notifications.find_by_id_and_update id read true

  unfoldable pub list_found : {A : Type 0} → NotificationQuery → Option A → Io W (Page Notification)
  list_found query none = throw wallet_missing
  list_found query (some wallet) = find_all query

  -- GET /notifications: the query's `walletId` is overwritten with the user's.
  unfoldable pub get_notifications : TokenPayload → NotificationQuery → Io W (Page Notification)
  get_notifications user query = do
    wallet ← o.wallets.find_by_id user.id
    list_found (record query { wallet_id = user.id }) wallet

  unfoldable pub update_found :
      TokenPayload → Text → Bool → Option Notification → Io W (Option Notification)
  update_found user id read none = throw notification_missing
  update_found user id read (some notification) =
      if text_eq notification.wallet user.id then update_one id read else throw authorization_failed

  -- PUT /notifications/:id
  unfoldable pub put_notification : TokenPayload → Text → Bool → Io W (Option Notification)
  put_notification user id read = do
    found ← o.notifications.find_by_id id
    update_found user id read found
