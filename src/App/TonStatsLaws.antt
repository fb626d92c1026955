-- ===== src/App/TonStatsLaws.antt =====
-- On GET /stats for TON, src/modules/app/app.controller.ts and src/modules/ton/ton.service.ts.
use vnst_be.Base.{
  ℕ, ◌≡◌, refl, ap, ◌∙◌, subst, ◌≢◌, inl, inr, Bool, true, false, none, some, List, [], ◌∷◌, Text,
  txt, filter, find, any, All, Io, ok, arith, Option-cases, Result-cases, Bool-cases,
}
use vnst_be.Schema.Chains.{ton}
use vnst_be.Schema.Amount.{Amount, format_units, zero_amount}
use vnst_be.Schema.Signed.{sub_ℕ}
use vnst_be.Schema.TonTransaction.{TonTransaction, TransactionType, mint, redeem, transfer}
use vnst_be.External.Models.{HolderFilter}
use vnst_be.External.Groups.{TypeGroup}
use vnst_be.External.Infra.{Outside}
use vnst_be.Wallets.Service.{count_holders}
use vnst_be.Ton.Service.{get_operation_pool, count_all_transactions}
use vnst_be.Ton.ParseLaws.{InSixDecimals}
use vnst_be.Ton.Statistics
use vnst_be.Ton.Statistics.{type_eq, stats_aggregation, stats_of, group_in, group_out}
use vnst_be.App.{Stats, with_counts, get_stats, get_ton_stats}
use vnst_be.App.UnitLaws.{
  IsUnits, IsSignedUnits, sum_of, or_zero-IsUnits, zero-IsUnits, difference-IsSignedUnits,
}

abbrev pub of_type : TransactionType → List TonTransaction → List TonTransaction
of_type t rows = filter (λ r. type_eq r.type t) rows

abbrev pub total_in : TransactionType → List TonTransaction → ℕ
total_in t rows = sum_of (λ r. r.payload.in_amount.units) (of_type t rows)

abbrev pub total_out : TransactionType → List TonTransaction → ℕ
total_out t rows = sum_of (λ r. r.payload.out_amount.units) (of_type t rows)

-- What `$group` by type with `$sum` answers, in any order: each group has the sums of its type, and
-- a type without a group has no transactions.
pub record IsGrouping (groups : List TypeGroup) (rows : List TonTransaction) : Type 0 where
  pub sums :
      All
        (λ g.
          (g.total_amount_in ≡ format_units (total_in g.type rows) 6)
          × (g.total_amount_out ≡ format_units (total_out g.type rows) 6))
        groups
  pub covers :
      (t : TransactionType)
      → t ≢ transfer
      → any (λ g. type_eq g.type t) groups ≡ false
      → of_type t rows ≡ []

pub record IsTonCounted {W : Type 0} (o : Outside W) (rows : W → List TonTransaction) : Type 0 where
  -- for amounts as `parseTransaction` makes them
  pub aggregates :
      (w : W)
      → All InSixDecimals (rows w)
      → (groups : List TypeGroup) × (o.ton_transactions.aggregate stats_aggregation w ≡ ok groups w)
        × IsGrouping groups (rows w)
  pub counts :
      (ts : List TransactionType) (w : W) → (n : ℕ) × (o.ton_transactions.count_types ts w ≡ ok n w)
  pub holds : (f : HolderFilter) (w : W) → (n : ℕ) × (o.wallets.count f w ≡ ok n w)

type_eq_sound : (t u : TransactionType) → type_eq t u ≡ true → t ≡ u
type_eq_sound t u h = ground arith

find-All :
    {A : Type 0} (P : A → Type 0) (p : A → Bool) (xs : List A) (x : A)
    → All P xs
    → find p xs ≡ some x
    → P x × (p x ≡ true)
find-All P p [] x h e = cc
find-All P p (y ∷ ys) x h e = elim (Bool-cases (p y)) [
  | inl holds ↦
      let found : some y ≡ some x = rw holds at e in
      let same : y ≡ x = cc in (subst P same h.0, subst (λ z. p z ≡ true) same holds)
  | inr fails ↦ find-All P p ys x h.1 (rw fails at e)
]

find-none : {A : Type 0} (p : A → Bool) (xs : List A) → find p xs ≡ none → any p xs ≡ false
find-none p [] e = refl
find-none p (y ∷ ys) e = elim (Bool-cases (p y)) [
  | inl holds ↦ let found : some y ≡ none = rw holds at e in cc
  | inr fails ↦ rw fails (find-none p ys (rw fails at e))
]

found-IsUnits :
    (groups : List TypeGroup) (rows : List TonTransaction) (t : TransactionType)
    → t ≢ transfer
    → IsGrouping groups rows
    → IsUnits 6 (group_in (find (λ g. type_eq g.type t) groups)) (total_in t rows)
      × IsUnits 6 (group_out (find (λ g. type_eq g.type t) groups)) (total_out t rows)
unfolding group_in group_out
found-IsUnits groups rows t other grouping =
    elim (Option-cases (find (λ g. type_eq g.type t) groups)) [
      | inl missing ↦
          let nothing =
            grouping.covers t other (find-none (λ g. type_eq g.type t) groups missing) in
          rw missing (
            zero-IsUnits 6 (total_in t rows) (ap (sum_of (λ r. r.payload.in_amount.units)) nothing),
            zero-IsUnits 6 (total_out t rows)
                (ap (sum_of (λ r. r.payload.out_amount.units)) nothing),
          )
      | inr (g, e) ↦
          let ((sum_in, sum_out), is_t) = find-All _ _ groups g grouping.sums e in
          let same = type_eq_sound g.type t is_t in
          rw e (
            or_zero-IsUnits 6 g.total_amount_in (total_in t rows)
                (ap (λ a. a.units) (sum_in ∙ ap (λ u. format_units (total_in u rows) 6) same))
                (ap (λ a. a.decimals) sum_in),
            or_zero-IsUnits 6 g.total_amount_out (total_out t rows)
                (ap (λ a. a.units) (sum_out ∙ ap (λ u. format_units (total_out u rows) 6) same))
                (ap (λ a. a.decimals) sum_out),
          )
    ]

get_operation_pool_answers :
    {W : Type 0} (o : Outside W) (run_method : Text → Io W ℕ) (w : W)
    → (pool : Amount) × (v : W) × (get_operation_pool o run_method w ≡ ok pool v)
unfolding get_operation_pool
get_operation_pool_answers o run_method w =
    elim (Result-cases (run_method (txt "get_operation_pool") w)) [
      | inl (n, v, e) ↦ (format_units n 6, v, rw e refl)
      | inr (x, v, e) ↦ (zero_amount, v, rw e refl)
    ]

module _ {W : Type 0} (o : Outside W) {rows : W → List TonTransaction}
    (counted : IsTonCounted o rows) where
  -- If the stored amounts have six decimals, as those of parsed transactions do, and the database
  -- answers the aggregation with the groups by type of the stored transactions, in any order, then GET
  -- /stats for TON answers, also when the operation pool cannot be read, with the sums over the stored
  -- mints and redemptions in base units of six decimals and with the signed differences of these sums.
  pub get_stats-ton :
      (run_method : Text → Io W ℕ) (w : W)
      → All InSixDecimals (rows w)
      → (s : Stats) × (v : W) × (get_stats o run_method ton w ≡ ok s v)
        × IsUnits 6 s.minted (total_out mint (rows w))
        × IsUnits 6 s.redeemed (total_in redeem (rows w))
        × IsSignedUnits 6 s.total_vnst (sub_ℕ (total_out mint (rows w)) (total_in redeem (rows w)))
        × IsSignedUnits 6 s.total_usdt (sub_ℕ (total_in mint (rows w)) (total_out redeem (rows w)))
  unfolding get_stats get_ton_stats Statistics.get_stats count_all_transactions count_holders
      stats_of
  get_stats-ton run_method w scaled =
      let (groups, answered, grouping) = counted.aggregates w scaled in
      let minted = found-IsUnits groups (rows w) mint (λ e. cc) grouping in
      let redeemed = found-IsUnits groups (rows w) redeem (λ e. cc) grouping in
      let (n, transactions) = counted.counts (mint ∷ redeem ∷ []) w in
      let (h, holders) = counted.holds (record { balance_above = 0; network = ton }) w in
      let (pool, v, read) = get_operation_pool_answers o run_method w in
      (
        with_counts (stats_of groups) n h pool,
        v,
        rw (answered, transactions, holders, read) refl,
        minted.1,
        redeemed.0,
        difference-IsSignedUnits 6 _ _ _ _ minted.1 redeemed.0,
        difference-IsSignedUnits 6 _ _ _ _ minted.0 redeemed.1,
      )
