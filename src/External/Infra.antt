-- ===== src/External/Infra.antt =====
-- The other services: Bull's queue, the cache, Mailgun, web3's contract object, ethers and jsonwebtoken,
-- dayjs and the random sources.
use vnst_be.Base.{ℕ, Bool, Option, List, Text, Io}
use vnst_be.Schema.EventLog.{EventLog, FieldValue, RawLog}
use vnst_be.Utils.Retry.{Timer}
use vnst_be.External.Env.{Env}
use vnst_be.External.Models.{
  WalletModel, NotificationModel, EventLogModel, TonTransactionModel, SubscriberModel,
}

-- The jobs of the queue "eventLog", by name. The address of a job may be `undefined`.
pub data Job : Type 0 where
  update_balance : Option Text → Job
  insert_event_log : EventLog → Job

pub record Queue (W : Type 0) : Type 0 where
  pub add_bulk : List Job → Io W (Unit {0})

-- The values that the program caches.
pub data CacheValue : Type 0 where
  flag : Bool → CacheValue
  number : ℕ → CacheValue

-- `get` answers null for a key that is not there; `set` takes a `ttl` in seconds.
pub record Cache (W : Type 0) : Type 0 where
  pub get : Text → Io W (Option CacheValue)
  pub set : Text → CacheValue → Option ℕ → Io W (Unit {0})
  pub del : Text → Io W (Unit {0})

pub record Mail : Type 0 where
  pub from : Option Text
  pub to : Option Text
  pub subject : Text
  pub html : Text

pub record Mailer (W : Type 0) : Type 0 where
  pub send : Mail → Io W (Unit {0})

-- The interface EventLogWeb3 of event-logs.service.ts.
pub record EventLogWeb3 : Type 0 where
  pub event : Text
  pub log_index : Option ℕ
  pub transaction_index : Option ℕ
  pub transaction_hash : Option Text
  pub block_hash : Option Text
  pub block_number : Option ℕ
  pub address : Text
  pub topics : List Text
  pub raw_data : Text
  pub raw : Option RawLog
  pub return_values : List (Text × FieldValue)
  pub signature : Option Text

-- The options of `getPastEvents`.
pub record PastEventsQuery : Type 0 where
  pub block_hash : Option Text
  pub from_block : ℕ
  pub to_block : ℕ

-- The contract's calls return whole numbers of base units.
pub record VnstContract (W : Type 0) : Type 0 where
  pub address : Text
  pub block_number : Io W ℕ
  pub balance_of : Text → Io W ℕ
  pub market_price : Io W ℕ
  pub operation_pool : Io W ℕ
  pub total_supply : Io W ℕ
  pub is_verified : Text → Io W Bool
  pub get_past_events : PastEventsQuery → Io W (List EventLogWeb3)

-- `uuidv4()`, and `Math.floor(Math.random() * 10)`.
pub record Random (W : Type 0) : Type 0 where
  pub uuid : Io W Text
  pub digit : Io W ℕ

-- Pure functions of libraries: dayjs's `unix(t).utc().format("DD.MM.YYYY (UTC)")`, class-validator's
-- `isEthereumAddress`, and the friendly form of a TON address, which may fail to parse.
pub record Library : Type 0 where
  pub format_date : ℕ → Text
  pub is_ethereum_address : Text → Bool
  pub ton_friendly : Text → Option Text
  pub ton_raw : Text → Option Text

pub record Outside (W : Type 0) : Type 0 where
  pub env : Env
  pub library : Library
  pub wallets : WalletModel W
  pub notifications : NotificationModel W
  pub event_logs : EventLogModel W
  pub ton_transactions : TonTransactionModel W
  pub subscribers : SubscriberModel W
  pub queue : Queue W
  pub cache : Cache W
  pub mailer : Mailer W
  pub contract : VnstContract W
  pub timer : Timer W
  pub random : Random W
