-- ===== src/Merchants/QueryLaws.antt =====
-- On the offsets of the two lists of src/modules/merchant.
use vnst_be.Base.{◌<◌, ◌≡◌, refl, lt→ltb}
use vnst_be.Utils.Pagination.{page_skip, transform_pagination}
use vnst_be.Merchants.Queries.{
  ContributionQuery, LiquidityQuery, contribution_options, liquidity_options,
}

-- For a page and a limit other than 0, the list of liquidity supports, which takes the offset that
-- the pipe has put into its query, asks the database for the same rows in the same order as the list
-- of contributions, which computes the offset itself.
pub liquidity_options-transform_pagination :
    (contributions : ContributionQuery) (supports : LiquidityQuery)
    → 0 < contributions.pagination.page
    → 0 < contributions.pagination.limit
    → supports.pagination ≡ transform_pagination contributions.pagination
    → liquidity_options supports ≡ contribution_options contributions
unfolding liquidity_options contribution_options transform_pagination page_skip
liquidity_options-transform_pagination contributions supports p l e =
    let q = contributions.pagination in rw (e, lt→ltb 0 q.page p, lt→ltb 0 q.limit l) refl
