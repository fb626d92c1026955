-- ===== src/App/StatsLaws.antt =====
-- On GET /stats, src/modules/app/app.controller.ts.
use vnst_be.Base.{ℕ, ◌^◌, ◌-◌, ◌≡◌, refl, Option, List, [], ◌∷◌, Text, txt, text_eq, filter, Io, ok}
use vnst_be.Schema.Chains.{bnb}
use vnst_be.Schema.Amount.{from_wei}
use vnst_be.Schema.Signed.{pos}
use vnst_be.Schema.EventLog.{EventLog, FieldValue}
use vnst_be.External.Models.{EventLogFilter, HolderFilter}
use vnst_be.External.Groups.{EventGroup}
use vnst_be.External.Infra.{Outside}
use vnst_be.Wallets.Service.{count_holders}
use vnst_be.Contract.{get_operation_pool}
use vnst_be.EventLogs.Parse.{field}
use vnst_be.EventLogs.Queries.{count_all_txn, txn_filter}
use vnst_be.EventLogs.Totals.{
  get_amount_aggregation, get_amount_minted, get_amount_redeemed, totals_of,
}
use vnst_be.External.Aggregate.{
  Expression, null_value, property, to_double, divide, whole, Stage, match_equal, add_fields,
  group_sum,
}
use vnst_be.App.{Stats, get_stats, get_bnb_stats, stats_of}
use vnst_be.App.UnitLaws.{
  IsUnits, IsSignedUnits, sum_of, or_zero-IsUnits, zero-IsUnits, difference-IsSignedUnits,
  at_least_zero-IsSignedUnits,
}

module _ (number : Option FieldValue → ℕ) where
  -- The sum of one decoded value over events, in base units.
  abbrev pub total_of : Text → List EventLog → ℕ
  total_of key logs = sum_of (λ l. number (field key l.return_values)) logs

  abbrev pub amount_in_of : List EventLog → ℕ
  amount_in_of = total_of (txt "1")

  abbrev pub amount_out_of : List EventLog → ℕ
  amount_out_of = total_of (txt "2")

  -- What `$group` with `_id: null` answers: nothing for no document, else one group.
  abbrev pub groups_of : List EventLog → List EventGroup
  groups_of [] = []
  groups_of (l ∷ logs) =
      (record {
        total_amount_in = from_wei (amount_in_of (l ∷ logs));
        total_amount_out = from_wei (amount_out_of (l ∷ logs));
      })
      ∷ []

abbrev pub named : Text → List EventLog → List EventLog
named event logs = filter (λ l. text_eq l.event event) logs

-- A property as a number, over 10^18.
abbrev pub in_tokens : Text → Expression
in_tokens name = divide (to_double (property name)) (whole (10 ^ 18))

-- Of the events with this name, the sums of the second and of the third argument.
abbrev pub sums_of_event : Text → List Stage
sums_of_event event =
    match_equal (txt "event") event
    ∷ add_fields (
        (txt "amountInt", in_tokens (txt "returnValues.1"))
        ∷ (txt "amountOut", in_tokens (txt "returnValues.2"))
        ∷ [])
    ∷ group_sum null_value (
        (txt "totalAmountIn", property (txt "amountInt"))
        ∷ (txt "totalAmountOut", property (txt "amountOut"))
        ∷ [])
    ∷ []

-- The database runs that aggregation over the stored events, and computes without rounding; the other
-- services answer. None of them changes the state.
pub record IsCounted {W : Type 0} (o : Outside W) (number : Option FieldValue → ℕ)
    (logs : W → List EventLog) : Type 0 where
  pub aggregates :
      (event : Text) (w : W)
      → o.event_logs.aggregate (sums_of_event event) w
        ≡ ok (groups_of number (named event (logs w))) w
  pub counts : (f : EventLogFilter) (w : W) → (n : ℕ) × (o.event_logs.count f w ≡ ok n w)
  pub holds : (f : HolderFilter) (w : W) → (n : ℕ) × (o.wallets.count f w ≡ ok n w)
  pub pools : (w : W) → (n : ℕ) × (o.contract.operation_pool w ≡ ok n w)

totals_of-IsUnits :
    (number : Option FieldValue → ℕ) (logs : List EventLog)
    → IsUnits 18 (totals_of (groups_of number logs)).amount_in (amount_in_of number logs)
      × IsUnits 18 (totals_of (groups_of number logs)).amount_out (amount_out_of number logs)
unfolding totals_of
totals_of-IsUnits number [] = (zero-IsUnits 18 0 refl, zero-IsUnits 18 0 refl)
totals_of-IsUnits number (l ∷ logs) =
    let total_in = amount_in_of number (l ∷ logs) in
    let total_out = amount_out_of number (l ∷ logs) in
    (
      or_zero-IsUnits 18 (from_wei total_in) total_in refl refl,
      or_zero-IsUnits 18 (from_wei total_out) total_out refl refl,
    )

module _ {W : Type 0} (o : Outside W) (number : Option FieldValue → ℕ) {logs : W → List EventLog}
    (counted : IsCounted o number logs) where
  -- If the database answers the aggregation that picks the events with a name and sums `returnValues.1`
  -- and `returnValues.2` over 10^18 with the sums over the stored events, computed without rounding,
  -- and it, the counts and the contract's pool answer without a change, then GET /stats for BNB answers
  -- with the sums over the stored mints and redemptions in base units of 18 decimals; the amount of
  -- VNST in circulation and that of USDT held are the differences of these sums, and 0 where more
  -- was redeemed than minted.
  pub get_stats-bnb :
      (run_method : Text → Io W ℕ) (w : W)
      → let minted = named (txt "EMint") (logs w) in
        let redeemed = named (txt "ERedeem") (logs w) in
        (s : Stats) × (get_stats o run_method bnb w ≡ ok s w)
        × IsUnits 18 s.minted (amount_out_of number minted)
        × IsUnits 18 s.redeemed (amount_in_of number redeemed)
        × IsSignedUnits 18 s.total_vnst
            (pos (amount_out_of number minted - amount_in_of number redeemed))
        × IsSignedUnits 18 s.total_usdt
            (pos (amount_in_of number minted - amount_out_of number redeemed))
  unfolding get_stats get_bnb_stats get_amount_minted get_amount_redeemed get_amount_aggregation
      count_all_txn count_holders get_operation_pool
  get_stats-bnb run_method w =
      let minted = totals_of-IsUnits number (named (txt "EMint") (logs w)) in
      let redeemed = totals_of-IsUnits number (named (txt "ERedeem") (logs w)) in
      let (n, transactions) = counted.counts txn_filter w in
      let (h, holders) = counted.holds (record { balance_above = 0; network = bnb }) w in
      let (p, pool) = counted.pools w in
      (
        stats_of (totals_of (groups_of number (named (txt "EMint") (logs w))))
            (totals_of (groups_of number (named (txt "ERedeem") (logs w)))) n h (from_wei p),
        rw
            (
              counted.aggregates (txt "EMint") w,
              counted.aggregates (txt "ERedeem") w,
              transactions,
              holders,
              pool,
            )
            refl,
        minted.1,
        redeemed.0,
        at_least_zero-IsSignedUnits 18 _ _ _
            (difference-IsSignedUnits 18 _ _ _ _ minted.1 redeemed.0),
        at_least_zero-IsSignedUnits 18 _ _ _
            (difference-IsSignedUnits 18 _ _ _ _ minted.0 redeemed.1),
      )
