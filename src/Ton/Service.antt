-- ===== src/Ton/Service.antt =====
-- src/modules/ton/ton.service.ts: the queries of the stored transactions and the calls of the
-- contract's get-methods. `run_method` is `tonClient.runMethod` with the number that it leaves on the
-- stack.
use vnst_be.Base.{ℕ, Option, none, some, [], ◌∷◌, Text, txt, Io, pure, throw, ◌>>=◌, try_catch}
use vnst_be.Schema.Amount.{Amount, format_units, zero_amount}
use vnst_be.Schema.TonTransaction.{TonTransaction, TransactionType, mint, redeem}
use vnst_be.External.Models.{QueryOptions, TonFilter}
use vnst_be.External.Infra.{Outside}
use vnst_be.Utils.Pagination.{PaginationQuery}
use vnst_be.Wallets.Service.{bad_request}
use vnst_be.EventLogs.Queries.{Page, given}

-- src/modules/ton/dto/transaction-query.dto.ts
pub record ListTransactionQuery : Type 0 where
  pub pagination : PaginationQuery
  pub type : Option TransactionType
  pub hash : Option Text
  pub wallet_address : Option Text

module _ {W : Type 0} (o : Outside W) where
  unfoldable pub count_all_transactions : Io W ℕ
  count_all_transactions = o.ton_transactions.count_types (mint ∷ redeem ∷ [])

  -- `Address.parse(…).toRawString()`, whose exception is answered with status 400.
  unfoldable pub from_address : Option Text → Io W (Option Text)
  from_address none = pure none
  from_address (some address) = elim (o.library.ton_raw address) [
    | none ↦ throw (bad_request (txt "Invalid wallet address"))
    | some raw ↦ pure (some raw)
  ]

  abbrev pub ton_filter : Option Text → ListTransactionQuery → TonFilter
  ton_filter address query = record {
    from_address = address;
    hash = given query.hash;
    type = query.type;
  }

  -- `sort({ timestamp: -1 }).skip(query.skip).limit(query.limit)`
  abbrev pub ton_options : ListTransactionQuery → QueryOptions
  ton_options query = record {
    skip = some query.pagination.skip;
    limit = some query.pagination.limit;
    sort = some (txt "-timestamp");
  }

  unfoldable pub get_transactions : ListTransactionQuery → Io W (Page TonTransaction)
  get_transactions query = do
    address ← from_address (given query.wallet_address)
    rows ← o.ton_transactions.find (ton_filter address query) (ton_options query)
    total ← o.ton_transactions.count (ton_filter address query)
    pure (record { rows = rows; total = total })

  module _ (run_method : Text → Io W ℕ) where
    unfoldable pub get_market_price : Io W Amount
    get_market_price = do price ← run_method (txt "get_market_price"); pure (format_units price 6)

    -- A failure gives 0.
    unfoldable pub get_operation_pool : Io W Amount
    get_operation_pool =
        try_catch (do pool ← run_method (txt "get_operation_pool"); pure (format_units pool 6))
          (λ e. pure zero_amount)
