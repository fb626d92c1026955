-- ===== src/Merchants/Totals.antt =====
-- src/modules/merchant: the totals of contribution-history.service.ts and of
-- liquidity-support.service.ts. The database sums up by token; the code makes an object of the groups.
use vnst_be.Base.{Bool, true, false, List, [], ◌∷◌, txt, if◌then◌else◌, Io, pure, ◌>>=◌}
use vnst_be.Schema.Chains.{Token, vnst, usdt}
use vnst_be.Schema.Amount.{Amount}
use vnst_be.Schema.Signed.{SignedAmount}
use vnst_be.External.Aggregate.{
  property, string, whole, equal, cond, subtract, Stage, group_sum, project,
}

-- A document of the result, `_id` and its total.
pub record TokenTotal (A : Type 0) : Type 0 where
  pub id : Token
  pub total : A

abbrev pub token_eq : Token → Token → Bool
token_eq vnst vnst = true
token_eq usdt usdt = true
token_eq vnst usdt = false
token_eq usdt vnst = false

-- `totals[token] = total` on an object with tokens for keys.
unfoldable pub assign : {A : Type 0} → Token → A → List (Token × A) → List (Token × A)
assign token total [] = (token, total) ∷ []
assign token total ((t, x) ∷ totals) =
    let rest = assign token total totals in
    if token_eq t token then (token, total) ∷ totals else (t, x) ∷ rest

-- The `reduce`, from the totals so far.
unfoldable pub reduce_totals :
    {A : Type 0} → List (TokenTotal A) → List (Token × A) → List (Token × A)
reduce_totals [] totals = totals
reduce_totals (item ∷ items) totals = reduce_totals items (assign item.id item.total totals)

unfoldable pub contribution_totals : List Stage
contribution_totals =
    group_sum (property (txt "token")) ((txt "total", property (txt "amount")) ∷ []) ∷ []

-- `aggregate` is that of the model of contributions.
unfoldable pub get_total_contributions :
    {W : Type 0} → (List Stage → Io W (List (TokenTotal Amount))) → Io W (List (Token × Amount))
get_total_contributions aggregate = do
  results ← aggregate contribution_totals
  pure (reduce_totals results [])

unfoldable pub liquidity_totals : List Stage
liquidity_totals =
    group_sum (property (txt "token")) (
      (
        txt "totalIn",
        cond (equal (property (txt "type")) (string (txt "IN"))) (property (txt "amount"))
            (whole 0),
      )
      ∷ (
        txt "totalOut",
        cond (equal (property (txt "type")) (string (txt "OUT"))) (property (txt "amount"))
            (whole 0),
      )
      ∷ [])
    ∷ project (
        (txt "_id", whole 1)
        ∷ (txt "netTotal", subtract (property (txt "totalOut")) (property (txt "totalIn")))
        ∷ [])
    ∷ []

-- `aggregate` is that of the model of supports; its totals are differences.
unfoldable pub get_total_liquidity :
    {W : Type 0}
    → (List Stage → Io W (List (TokenTotal SignedAmount)))
    → Io W (List (Token × SignedAmount))
get_total_liquidity aggregate = do
  results ← aggregate liquidity_totals
  pure (reduce_totals results [])
