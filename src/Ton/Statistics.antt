-- ===== src/Ton/Statistics.antt =====
-- src/modules/ton/ton.service.ts: `getStats`.
use vnst_be.Base.{Bool, true, false, Option, none, some, List, [], ◌∷◌, txt, find, Io, pure, ◌>>=◌}
use vnst_be.Schema.Amount.{Amount}
use vnst_be.Schema.Signed.{SignedAmount, amount_difference, or_zero}
use vnst_be.Schema.TonTransaction.{TransactionType, mint, redeem, transfer, transaction_type_text}
use vnst_be.External.Aggregate.{property, whole, Stage, match_in, group_sum}
use vnst_be.External.Groups.{TypeGroup}
use vnst_be.External.Infra.{Outside}

abbrev pub type_eq : TransactionType → TransactionType → Bool
type_eq mint mint = true
type_eq redeem redeem = true
type_eq transfer transfer = true
type_eq _ _ = false

unfoldable pub stats_aggregation : List Stage
stats_aggregation =
    match_in (txt "type") (transaction_type_text mint ∷ transaction_type_text redeem ∷ [])
    ∷ group_sum (property (txt "type")) (
        (txt "count", whole 1)
        ∷ (txt "totalAmountIn", property (txt "payload.inAmount"))
        ∷ (txt "totalAmountOut", property (txt "payload.outAmount"))
        ∷ [])
    ∷ []

-- `group?.totalAmountIn || 0` and `group?.totalAmountOut || 0`.
unfoldable pub group_in : Option TypeGroup → Amount
group_in none = or_zero none
group_in (some group) = or_zero (some group.total_amount_in)

unfoldable pub group_out : Option TypeGroup → Amount
group_out none = or_zero none
group_out (some group) = or_zero (some group.total_amount_out)

pub record TonStats : Type 0 where
  pub minted : Amount
  pub redeemed : Amount
  pub total_vnst : SignedAmount
  pub total_usdt : SignedAmount

unfoldable pub stats_of : List TypeGroup → TonStats
stats_of result =
    let minted = find (λ r. type_eq r.type mint) result in
    let redeemed = find (λ r. type_eq r.type redeem) result in
    record {
      minted = group_out minted;
      redeemed = group_in redeemed;
      total_vnst = amount_difference (group_out minted) (group_in redeemed);
      total_usdt = amount_difference (group_in minted) (group_out redeemed);
    }

unfoldable pub get_stats : {W : Type 0} → Outside W → Io W TonStats
get_stats o = do result ← o.ton_transactions.aggregate stats_aggregation; pure (stats_of result)
