-- ===== src/EventLogs/Queries.antt =====
-- src/modules/event-logs/event-logs.service.ts: `getEventLogByTrasaction` (spelled so in the source),
-- `findAll`, and the totals of `getAmountMinted` and `getAmountRedeemed`.
use vnst_be.Base.{
  ℕ, Option, none, some, List, [], ◌∷◌, map, filter, Text, txt, option_text_eq, option_truthy,
  or_else, split, if◌then◌else◌, Io, pure, ◌>>=◌, ◌>>◌, detach,
}
use vnst_be.Schema.EventLog.{EventLog}
use vnst_be.External.Models.{QueryOptions, EventLogFilter}
use vnst_be.External.Infra.{Outside, update_balance, insert_event_log}
use vnst_be.Utils.Pagination.{PaginationQuery, page_skip}
use vnst_be.EventLogs.Parse.{unique, mint_event, redeem_event}
use vnst_be.EventLogs.Scan.{collect, add_jobs}

-- src/modules/event-logs/dto/event-log-query.dto.ts
pub record EventLogQuery : Type 0 where
  pub pagination : PaginationQuery
  pub event : Option Text
  pub transaction_hash : Option Text
  pub wallet_address : Option Text

pub record EventLogQueryByTransaction : Type 0 where
  pub block_hash : Text
  pub transaction_hash : Text
  pub block_number : ℕ

pub record Page (A : Type 0) : Type 0 where
  pub rows : List A
  pub total : ℕ

-- `if (s) …` on a property that may be missing or empty.
abbrev pub given : Option Text → Option Text
given s = if option_truthy s then s else none

abbrev pub events_of : Option Text → Option (List Text)
events_of none = none
events_of (some s) = some (split b',' s)

module _ {W : Type 0} (o : Outside W) (default_start : ℕ) where
  unfoldable pub get_event_log_by_transaction : EventLogQueryByTransaction → Io W (List EventLog)
  get_event_log_by_transaction query = do
    events ← o.contract.get_past_events (record {
      block_hash = some query.block_hash;
      from_block = query.block_number;
      to_block = query.block_number;
    })
    let c = collect o default_start events (record { addresses = []; result = [] })
    detach (add_jobs o default_start (map update_balance (unique c.addresses)))
    detach (add_jobs o default_start (map insert_event_log c.result))
    pure (filter (λ e. option_text_eq e.transaction_hash (some query.transaction_hash)) c.result)

-- `{ event: { $in: [EventName.MINT, EventName.REDEEM] } }`
abbrev pub txn_filter : EventLogFilter
txn_filter = record {
  address = none;
  event_in = some (mint_event ∷ redeem_event ∷ []);
  transaction_hash = none;
  first_value = none;
}

module _ {W : Type 0} (o : Outside W) where
  unfoldable pub log_filter : EventLogQuery → EventLogFilter
  log_filter query = record {
    address = some o.contract.address;
    event_in = events_of (given query.event);
    transaction_hash = given query.transaction_hash;
    first_value = given query.wallet_address;
  }

  unfoldable pub log_options : EventLogQuery → QueryOptions
  log_options query = record {
    skip = some (page_skip query.pagination.page query.pagination.limit);
    limit = some query.pagination.limit;
    sort = some (or_else (given query.pagination.sort) (txt "-blockNumber"));
  }

  unfoldable pub find_all : EventLogQuery → Io W (Page EventLog)
  find_all query = do
    rows ← o.event_logs.find (log_filter query) (log_options query)
    total ← o.event_logs.count (log_filter query)
    pure (record { rows = rows; total = total })

  unfoldable pub count_all_txn : Io W ℕ
  count_all_txn = o.event_logs.count txn_filter
