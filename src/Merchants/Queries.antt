-- ===== src/Merchants/Queries.antt =====
-- src/modules/merchant: `findAll` of contribution-history.service.ts and of
-- liquidity-support.service.ts, and the lookups of merchant.service.ts. The totals are aggregations of
-- the database, of which the code makes an object. Dates are milliseconds.
use vnst_be.Base.{ℕ, zero, suc, Option, none, some, List, Text, txt, or_else, Io, pure, ◌>>=◌}
use vnst_be.Schema.Chains.{ChainId, Token}
use vnst_be.Schema.Merchant.{ContributionHistory, LiquiditySupport, LiquiditySupportType}
use vnst_be.External.Models.{QueryOptions}
use vnst_be.Utils.Pagination.{PaginationQuery, page_skip}
use vnst_be.EventLogs.Queries.{Page, given}

-- src/modules/merchant/dto/contribution-history.dto.ts
pub record ContributionQuery : Type 0 where
  pub pagination : PaginationQuery
  pub merchant : Option Text
  pub from : Option ℕ
  pub to : Option ℕ

-- src/modules/merchant/dto/liquidity-support.dto.ts
pub record LiquidityQuery : Type 0 where
  pub pagination : PaginationQuery
  pub merchant : Option Text
  pub chain_id : Option ChainId
  pub token : Option Token
  pub type : Option LiquiditySupportType
  pub from : Option ℕ
  pub to : Option ℕ

-- The bounds of `createdAt`, both included.
pub record ContributionFilter : Type 0 where
  pub merchant : Option Text
  pub created_from : Option ℕ
  pub created_to : Option ℕ

pub record LiquidityFilter : Type 0 where
  pub merchant : Option Text
  pub chain_id : Option ChainId
  pub token : Option Token
  pub type : Option LiquiditySupportType
  pub created_from : Option ℕ
  pub created_to : Option ℕ

-- `if (query.from)`: a bound of 0 is none.
abbrev pub bound : Option ℕ → Option ℕ
bound none = none
bound (some zero) = none
bound (some (suc t)) = some (suc t)

unfoldable pub contribution_filter : ContributionQuery → ContributionFilter
contribution_filter query = record {
  merchant = given query.merchant;
  created_from = bound query.from;
  created_to = bound query.to;
}

unfoldable pub contribution_options : ContributionQuery → QueryOptions
contribution_options query = record {
  skip = some (page_skip query.pagination.page query.pagination.limit);
  limit = some query.pagination.limit;
  sort = some (or_else (given query.pagination.sort) (txt "-createdAt"));
}

unfoldable pub liquidity_filter : LiquidityQuery → LiquidityFilter
liquidity_filter query = record {
  merchant = given query.merchant;
  chain_id = query.chain_id;
  token = query.token;
  type = query.type;
  created_from = bound query.from;
  created_to = bound query.to;
}

-- `skip` is the one that the pipe has put in.
unfoldable pub liquidity_options : LiquidityQuery → QueryOptions
liquidity_options query = record {
  skip = some query.pagination.skip;
  limit = some query.pagination.limit;
  sort = some (or_else (given query.pagination.sort) (txt "-createdAt"));
}

pub record ContributionModel (W : Type 0) : Type 0 where
  pub find : ContributionFilter → QueryOptions → Io W (List ContributionHistory)
  pub count : ContributionFilter → Io W ℕ

pub record LiquidityModel (W : Type 0) : Type 0 where
  pub find : LiquidityFilter → QueryOptions → Io W (List LiquiditySupport)
  pub count : LiquidityFilter → Io W ℕ

unfoldable pub find_contributions :
    {W : Type 0} → ContributionModel W → ContributionQuery → Io W (Page ContributionHistory)
find_contributions model query = do
  rows ← model.find (contribution_filter query) (contribution_options query)
  total ← model.count (contribution_filter query)
  pure (record { rows = rows; total = total })

unfoldable pub find_supports :
    {W : Type 0} → LiquidityModel W → LiquidityQuery → Io W (Page LiquiditySupport)
find_supports model query = do
  rows ← model.find (liquidity_filter query) (liquidity_options query)
  total ← model.count (liquidity_filter query)
  pure (record { rows = rows; total = total })
