-- ===== src/Logs/Transactions.antt =====
-- src/modules/transaction-log/transaction-log.service.ts. The HTTP client of the block explorer, the
-- decoder of the contract's inputs and mongoose's model are parameters.
use vnst_be.Base.{
  ℕ, zero, suc, ◌+◌, ◌*◌, Bool, true, false, Option, none, some, List, [], ◌∷◌, ◌++◌, map, Text,
  txt, text_eq, trim, split, get_elem?, if◌then◌else◌, Io, pure, ◌>>=◌, for_each,
}
use vnst_be.Utils.ParseInt.{Signed, parse_int}
use vnst_be.EventLogs.Queries.{Page, given}

-- An entry of `inputs`; `hex` is a number, none for NaN.
pub record InputEntry : Type 0 where
  pub name : Option Text
  pub type : Text
  pub hex : Option Signed

-- src/schema/transaction-log.schema.ts, less its dates.
pub record TransactionLog : Type 0 where
  pub hash : Text
  pub block_number : ℕ
  pub time_stamp : ℕ
  pub method : Text
  pub inputs : List InputEntry
  pub address : Text
  pub from : Text
  pub to : Text
  pub link_bsc : Text

-- An entry of the explorer's answer.
pub record ScannedTransaction : Type 0 where
  pub hash : Text
  pub block_number : ℕ
  pub time_stamp : ℕ
  pub from : Text
  pub to : Text
  pub input : Text

-- What `decodeData` gives; of an input the property `_hex` is read, which a
-- number has.
pub record Decoded : Type 0 where
  pub method : Text
  pub inputs : List (Option Text)
  pub names : List Text

pub record TransactionFilter : Type 0 where
  pub method_in : Option (List Text)
  pub address : Option Text

-- `sort` is the direction of `timeStamp`: true is ascending.
pub record TransactionOptions : Type 0 where
  pub skip : Option ℕ
  pub limit : Option ℕ
  pub ascending : Option Bool

pub record TransactionModel (W : Type 0) : Type 0 where
  -- `findOne().sort({ blockNumber: -1 })`
  pub latest_block_number : Io W (Option ℕ)
  -- `findOneAndUpdate({ hash }, …, { upsert: true, new: true })`
  pub upsert : Text → TransactionLog → Io W (Unit {0})
  pub find : TransactionFilter → TransactionOptions → Io W (List TransactionLog)
  pub count : TransactionFilter → Io W ℕ

-- src/modules/transaction-log/dto/transaction-log.dto.ts
pub record TransactionQuery : Type 0 where
  pub address : Option Text
  pub method : Option Text
  pub page : Option ℕ
  pub limit : Option ℕ
  pub sort : Option Text

-- `parseInt(cur["_hex"], 16)`
abbrev pub hex_value : Option Text → Option Signed
hex_value none = none
hex_value (some hex) = parse_int (some 16) hex

-- `name[i] ? name[i] : null`
abbrev pub entry : Option Text → Option Text → InputEntry
entry hex name = record { name = given name; type = txt "BigNumber"; hex = hex_value hex }

-- The callback of `reduce`, from the index `i` and what has been pushed on.
unfoldable pub push_entries : List (Option Text) → List Text → ℕ → List InputEntry → List InputEntry
push_entries [] names i pre = pre
push_entries (hex ∷ hexes) names i pre =
    push_entries hexes names (suc i) (pre ++ entry hex (get_elem? names i) ∷ [])

unfoldable pub decode_hex_big_number_input : List (Option Text) → List Text → List InputEntry
decode_hex_big_number_input inputs names = push_entries inputs names 0 []

-- `maxBlockNumber ? maxBlockNumber.blockNumber + 1 : 0`
abbrev pub start_block : Option ℕ → ℕ
start_block none = 0
start_block (some n) = n + 1

-- `if (page && limit)`: neither is missing nor 0.
abbrev pub paged : Option ℕ → Option ℕ → TransactionOptions → TransactionOptions
paged (some (suc page)) (some (suc limit)) options = record options {
  skip = some (page * suc limit);
  limit = some (suc limit);
}
paged (some (suc page)) (some zero) options = options
paged (some (suc page)) none options = options
paged (some zero) limit options = options
paged none limit options = options

abbrev pub direction : Option Text → Option Bool
direction none = none
direction (some s) =
    if text_eq s (txt "asc") then some true else if text_eq s (txt "desc") then some false else none

abbrev pub methods_of : Option Text → Option (List Text)
methods_of none = none
methods_of (some s) = some (map trim (split b',' s))

unfoldable pub transaction_filter : TransactionQuery → TransactionFilter
transaction_filter query = record {
  method_in = methods_of (given query.method);
  address = given query.address;
}

unfoldable pub transaction_options : TransactionQuery → TransactionOptions
transaction_options query =
    paged query.page query.limit
      (record { skip = none; limit = none; ascending = direction query.sort })

abbrev pub link_bsc : Text → Text
link_bsc hash = txt "https://testnet.bscscan.com/tx/" ++ hash

-- `fetch_from n` is the request with `startblock` n.
module _ {W : Type 0} (model : TransactionModel W) (decode : Text → Decoded)
    (fetch_from : ℕ → Io W (List ScannedTransaction)) where
  unfoldable pub log_of : ScannedTransaction → TransactionLog
  log_of item = record {
    hash = item.hash;
    block_number = item.block_number;
    time_stamp = item.time_stamp;
    method = (decode item.input).method;
    inputs = decode_hex_big_number_input (decode item.input).inputs (decode item.input).names;
    address = item.from;
    from = item.from;
    to = item.to;
    link_bsc = link_bsc item.hash;
  }

  unfoldable pub store_item : ScannedTransaction → Io W (Unit {0})
  store_item item = model.upsert item.hash (log_of item)

  -- The `catch` throws on what it caught.
  unfoldable pub transaction_log_job : Io W (Unit {0})
  transaction_log_job = do
    latest ← model.latest_block_number
    result ← fetch_from (start_block latest)
    for_each result store_item

module _ {W : Type 0} (model : TransactionModel W) where
  unfoldable pub get_transaction : TransactionQuery → Io W (Page TransactionLog)
  get_transaction query = do
    rows ← model.find (transaction_filter query) (transaction_options query)
    total ← model.count (transaction_filter query)
    pure (record { rows = rows; total = total })

  unfoldable pub count_all_txn : Io W ℕ
  count_all_txn =
      model.count (record { method_in = some (txt "mint" ∷ txt "redeem" ∷ []); address = none })
