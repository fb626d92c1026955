-- ===== src/App.antt =====
-- src/modules/app/app.controller.ts. The cache in front of `getStats` is the framework's.
pub mod UnitLaws
pub mod StatsLaws
pub mod TonStatsLaws
pub mod UpdateLaws
use vnst_be.Base.{ℕ, Text, txt, Io, pure, ◌>>=◌}
use vnst_be.Schema.Chains.{Network, bnb, ton}
use vnst_be.Schema.Amount.{Amount}
use vnst_be.Schema.Signed.{SignedAmount, amount_difference, at_least_zero}
use vnst_be.External.Infra.{Outside}
use vnst_be.Wallets.Service.{count_holders}
use vnst_be.Contract.{get_operation_pool, get_total_supply}
use vnst_be.EventLogs.Queries.{count_all_txn}
use vnst_be.EventLogs.Totals.{Totals, get_amount_minted, get_amount_redeemed}
use vnst_be.Ton.Service
use vnst_be.Ton.Statistics
use vnst_be.Ton.Statistics.{TonStats}

-- The answer of GET /stats.
pub record Stats : Type 0 where
  pub holders : ℕ
  pub minted : Amount
  pub redeemed : Amount
  pub transactions : ℕ
  pub total_vnst : SignedAmount
  pub total_usdt : SignedAmount
  pub operation_pool : Amount

-- `{ ...stats, transactions, holders, operationPool }`
abbrev pub with_counts : TonStats → ℕ → ℕ → Amount → Stats
with_counts stats transactions holders operation_pool = record {
  holders = holders;
  minted = stats.minted;
  redeemed = stats.redeemed;
  transactions = transactions;
  total_vnst = stats.total_vnst;
  total_usdt = stats.total_usdt;
  operation_pool = operation_pool;
}

abbrev pub stats_of : Totals → Totals → ℕ → ℕ → Amount → Stats
stats_of minted redeemed transactions holders operation_pool = record {
  holders = holders;
  minted = minted.amount_out;
  redeemed = redeemed.amount_in;
  transactions = transactions;
  total_vnst = at_least_zero (amount_difference minted.amount_out redeemed.amount_in);
  total_usdt = at_least_zero (amount_difference minted.amount_in redeemed.amount_out);
  operation_pool = operation_pool;
}

module _ {W : Type 0} (o : Outside W) where
  -- `run_method` calls a get-method of the TON contract.
  unfoldable pub get_ton_stats : (Text → Io W ℕ) → Network → Io W Stats
  get_ton_stats run_method network = do
    stats ← Statistics.get_stats o
    transactions ← Service.count_all_transactions o
    holders ← count_holders o network
    operation_pool ← Service.get_operation_pool o run_method
    pure (with_counts stats transactions holders operation_pool)

  unfoldable pub get_bnb_stats : Network → Io W Stats
  get_bnb_stats network = do
    minted ← get_amount_minted o
    redeemed ← get_amount_redeemed o
    transactions ← count_all_txn o
    holders ← count_holders o network
    operation_pool ← get_operation_pool o
    pure (stats_of minted redeemed transactions holders operation_pool)

  -- GET /stats
  unfoldable pub get_stats : (Text → Io W ℕ) → Network → Io W Stats
  get_stats run_method ton = get_ton_stats run_method ton
  get_stats run_method bnb = get_bnb_stats bnb

  -- GET /totalcoins
  unfoldable pub get_total_coins : Io W Amount
  get_total_coins = get_total_supply o

  -- GET /circulating
  unfoldable pub get_circulating : Io W Amount
  get_circulating = get_total_supply o

-- GET /ping
abbrev pub ping : Text
ping = txt "pong"
