-- ===== src/External/Models.antt =====
-- The operations of mongoose's models that the program calls, with the filters and the updates that
-- it passes. A property that a filter leaves out is `none`.
use vnst_be.Base.{ℕ, Bool, Option, List, Text, Io}
use vnst_be.Schema.Chains.{Network}
use vnst_be.Schema.Amount.{Amount}
use vnst_be.Schema.Wallet.{Wallet}
use vnst_be.Schema.EventLog.{EventLog, LogKey}
use vnst_be.Schema.Notification.{Notification, NotificationType, Metadata}
use vnst_be.Schema.TonTransaction.{TonTransaction, TransactionType}
use vnst_be.Schema.Merchant.{MerchantSubscriber}
use vnst_be.External.Aggregate.{Stage}
use vnst_be.External.Groups.{EventGroup, TypeGroup}

-- `skip`, `limit` and `sort` of a query.
pub record QueryOptions : Type 0 where
  pub skip : Option ℕ
  pub limit : Option ℕ
  pub sort : Option Text

pub record WalletFilter : Type 0 where
  pub wallet_address : Option Text
  pub network : Option Network
  pub email : Option Text

-- src/modules/wallets/dto/create-wallet.dto.ts; the address may be `undefined` (ton.schedule.ts).
pub record CreateWallet : Type 0 where
  pub wallet_address : Option Text
  pub email : Option Text
  pub enabled_noti : Option Bool
  pub nonce : Option Text
  pub network : Network
  pub balance : Option Amount

-- `{ balance: { $gt: balance_above }, network }`
pub record HolderFilter : Type 0 where
  pub balance_above : ℕ
  pub network : Network

-- `{ $set: { nonce, network } }`
pub record NonceUpdate : Type 0 where
  pub nonce : Text
  pub network : Network

pub record WalletModel (W : Type 0) : Type 0 where
  pub find_one : WalletFilter → Io W (Option Wallet)
  pub find_by_id : Text → Io W (Option Wallet)
  pub find : Io W (List Wallet)
  pub count : HolderFilter → Io W ℕ
  pub create : CreateWallet → Io W Wallet
  pub save : Wallet → Io W Wallet
  -- filter, update, `upsert`
  pub find_one_and_update : WalletFilter → NonceUpdate → Bool → Io W (Unit {0})

-- src/modules/notification/dto/create-notification.dto.ts
pub record CreateNotification : Type 0 where
  pub wallet : Text
  pub metadata : Metadata
  pub type : NotificationType
  pub read : Bool

pub record NotificationFilter : Type 0 where
  pub wallet : Text
  pub type : Option NotificationType

pub record NotificationModel (W : Type 0) : Type 0 where
  pub create : CreateNotification → Io W Notification
  pub find : NotificationFilter → QueryOptions → Io W (List Notification)
  pub count : NotificationFilter → Io W ℕ
  pub find_by_id : Text → Io W (Option Notification)
  -- id, `{ read }`, `new`
  pub find_by_id_and_update : Text → Bool → Bool → Io W (Option Notification)

pub record EventLogFilter : Type 0 where
  pub address : Option Text
  -- `{ $in: events }`
  pub event_in : Option (List Text)
  pub transaction_hash : Option Text
  -- `returnValues.0`
  pub first_value : Option Text

pub record EventLogModel (W : Type 0) : Type 0 where
  -- key, `$set`, `upsert`; the `upsertedId` of the result
  pub update_one : LogKey → EventLog → Bool → Io W (Option Text)
  -- `findOne().sort({ blockNumber: -1 })`, of which only the block number is selected
  pub latest_block_number : Io W (Option (Option ℕ))
  pub find : EventLogFilter → QueryOptions → Io W (List EventLog)
  pub count : EventLogFilter → Io W ℕ
  pub aggregate : List Stage → Io W (List EventGroup)

pub record TonFilter : Type 0 where
  pub from_address : Option Text
  pub hash : Option Text
  pub type : Option TransactionType

pub record TonTransactionModel (W : Type 0) : Type 0 where
  pub save : TonTransaction → Io W TonTransaction
  -- `findOne().sort({ timestamp: -1 })`
  pub find_latest : Io W (Option TonTransaction)
  pub find : TonFilter → QueryOptions → Io W (List TonTransaction)
  pub count : TonFilter → Io W ℕ
  -- `{ type: { $in: types } }`
  pub count_types : List TransactionType → Io W ℕ
  pub aggregate : List Stage → Io W (List TypeGroup)

-- The properties that a new subscriber is created with.
pub record NewSubscriber : Type 0 where
  pub name : Text
  pub email : Option Text
  pub telegram_id : Option Text

pub record SubscriberFilter : Type 0 where
  pub email : Option Text
  pub telegram_id : Option Text

pub record SubscriberModel (W : Type 0) : Type 0 where
  pub find_one : SubscriberFilter → Io W (Option MerchantSubscriber)
  pub create : NewSubscriber → Io W MerchantSubscriber
