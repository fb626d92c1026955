-- ===== src/EventLogs/Totals.antt =====
-- src/modules/event-logs/event-logs.service.ts: the amounts of all mints and of all redemptions.
use vnst_be.Base.{◌^◌, none, some, List, [], ◌∷◌, Text, txt, Io, pure, ◌>>=◌}
use vnst_be.Schema.Amount.{Amount}
use vnst_be.Schema.Signed.{or_zero}
use vnst_be.External.Aggregate.{
  Expression, null_value, property, to_double, divide, whole, Stage, match_equal, add_fields,
  group_sum,
}
use vnst_be.External.Groups.{EventGroup}
use vnst_be.External.Infra.{Outside}

-- A property in base units, as a number of tokens.
abbrev pub tokens_of : Text → Expression
tokens_of name = divide (to_double (property name)) (whole (10 ^ 18))

unfoldable pub get_amount_aggregation : Text → List Stage
get_amount_aggregation event =
    match_equal (txt "event") event
    ∷ add_fields (
        (txt "amountInt", tokens_of (txt "returnValues.1"))
        ∷ (txt "amountOut", tokens_of (txt "returnValues.2"))
        ∷ [])
    ∷ group_sum null_value (
        (txt "totalAmountIn", property (txt "amountInt"))
        ∷ (txt "totalAmountOut", property (txt "amountOut"))
        ∷ [])
    ∷ []

pub record Totals : Type 0 where
  pub amount_in : Amount
  pub amount_out : Amount

-- `result[0]?.totalAmountIn || 0` and `result[0]?.totalAmountOut || 0`.
unfoldable pub totals_of : List EventGroup → Totals
totals_of [] = record { amount_in = or_zero none; amount_out = or_zero none }
totals_of (group ∷ groups) = record {
  amount_in = or_zero (some group.total_amount_in);
  amount_out = or_zero (some group.total_amount_out);
}

module _ {W : Type 0} (o : Outside W) where
  unfoldable pub get_amount_minted : Io W Totals
  get_amount_minted = do
    result ← o.event_logs.aggregate (get_amount_aggregation (txt "EMint"))
    pure (totals_of result)

  unfoldable pub get_amount_redeemed : Io W Totals
  get_amount_redeemed = do
    result ← o.event_logs.aggregate (get_amount_aggregation (txt "ERedeem"))
    pure (totals_of result)
