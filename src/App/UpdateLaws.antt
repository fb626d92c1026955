-- ===== src/App/UpdateLaws.antt =====
-- On GET /stats for TON after an update of the subscription, src/modules/app and src/modules/ton.
use mathlib.Core.List.{append_assoc, append-nil}
use vnst_be.Base.{
  none, All, All-append, ℕ, ◌+◌, ◌<◌, ◌≡◌, refl, sym, ap, ◌∙◌, subst, inl, inr, Bool, false, Option,
  some, List, [], ◌∷◌, ◌++◌, length, filter, Text, Io, ok, Bool-cases, arith,
}
use vnst_be.Schema.Chains.{ton}
use vnst_be.Schema.TonTransaction.{TonTransaction, TransactionParsed, mint, redeem}
use vnst_be.External.Infra.{Outside}
use vnst_be.Ton.Cells.{Cells}
use vnst_be.Ton.Parse.{Transaction, parse_transaction}
use vnst_be.Ton.ParseLaws.{InSixDecimals, parse_transaction-IsRecord}
use vnst_be.Ton.Schedule.{JettonClient}
use vnst_be.Ton.ScheduleLaws.{IsShort}
use vnst_be.Ton.Subscription.{TonClient, subscribe_to_transaction_update}
use vnst_be.Ton.SubscriptionLaws.{Feeds, newest}
use vnst_be.Ton.Stored.{is_stored, parsed_record, insert, insert_all, records, IsTonStore}
use vnst_be.Ton.StoredLaws.{subscribe-insert_all}
use vnst_be.Ton.Statistics.{type_eq}
use vnst_be.App.{Stats, get_stats}
use vnst_be.App.UnitLaws.{IsUnits, sum_of}
use vnst_be.App.TonStatsLaws.{total_in, total_out, IsTonCounted, get_stats-ton}

-- The hashes are those of no stored row, and differ.
abbrev pub AreFresh : List TonTransaction → List TonTransaction → Type 0
AreFresh rows [] = Unit {0}
AreFresh rows (p ∷ ps) = (is_stored p.hash rows ≡ false) × AreFresh (rows ++ p ∷ []) ps

insert_all-fresh :
    (rows ps : List TonTransaction) → AreFresh rows ps → insert_all rows ps ≡ rows ++ ps
unfolding insert_all insert
insert_all-fresh rows [] h = sym (append-nil rows)
insert_all-fresh rows (p ∷ ps) (here, later) =
    rw here (insert_all-fresh (rows ++ p ∷ []) ps later ∙ append_assoc rows (p ∷ []) ps)

sum_of-filter_append :
    {A : Type 0} (f : A → ℕ) (test : A → Bool) (xs ys : List A)
    → sum_of f (filter test (xs ++ ys)) ≡ sum_of f (filter test xs) + sum_of f (filter test ys)
sum_of-filter_append f test [] ys = omega arith
sum_of-filter_append f test (x ∷ xs) ys =
    let rest = sum_of-filter_append f test xs ys in
    elim (Bool-cases (test x)) [ inl e ↦ rw e (omega arith) | inr e ↦ rw e rest ]

parsed_record-InSixDecimals :
    {Cell Slice : Type 0} (cells : Cells Cell Slice) (tx : Transaction Cell)
    (r : Option (Option TransactionParsed))
    → parse_transaction cells tx ≡ r
    → All InSixDecimals (parsed_record r)
parsed_record-InSixDecimals cells tx none e = tt
parsed_record-InSixDecimals cells tx (some none) e = tt
parsed_record-InSixDecimals cells tx (some (some p)) e =
    ((parse_transaction-IsRecord cells tx p e).scaled, tt)

records-InSixDecimals :
    {Cell Slice : Type 0} (cells : Cells Cell Slice) (txs : List (Transaction Cell))
    → All InSixDecimals (records cells txs)
records-InSixDecimals cells [] = tt
records-InSixDecimals cells (tx ∷ txs) =
    All-append InSixDecimals (parsed_record (parse_transaction cells tx)) (records cells txs)
      (parsed_record-InSixDecimals cells tx (parse_transaction cells tx) refl)
      (records-InSixDecimals cells txs)

-- If saving a transaction inserts it under its hash, what else the handler does leaves the collection
-- alone, the node gives the new transactions hundred by hundred, the service of balances lists at most
-- a hundred wallets of an owner from the last page on that `sync_fuel` rounds reach, the records of
-- the transactions have new and different hashes, the amounts stored before have six decimals, and the
-- database answers the aggregation with the groups of what is stored and counts documents without an
-- exception, then an update with a round for each transaction and one more ends, and after it GET
-- /stats for TON counts what was minted and redeemed before and what is in the new records, each once,
-- in base units of six decimals.
pub subscribe-get_stats :
    {W Cell Slice : Type 0} (o : Outside W) (cells : Cells Cell Slice) (jettons : JettonClient W)
    (client : TonClient W Cell) (run_method : Text → Io W ℕ) (sync_fuel : ℕ)
    {stored : W → List TonTransaction}
    → IsTonStore o jettons stored
    → IsTonCounted o stored
    → (last : Option Text) (history : List (Transaction Cell))
    → Feeds o cells jettons client sync_fuel last history
    → IsShort jettons sync_fuel
    → (fuel : ℕ) (w : W) → length history < fuel
    → AreFresh (stored w) (records cells history)
    → All InSixDecimals (stored w)
    → (v : W) × (s : Stats) × (x : W) × (subscribe_to_transaction_update o cells jettons client
          sync_fuel fuel last w
        ≡ ok (some (newest o cells jettons client sync_fuel last history)) v)
      × (get_stats o run_method ton v ≡ ok s x)
      × IsUnits 6 s.minted (total_out mint (stored w) + total_out mint (records cells history))
      × IsUnits 6 s.redeemed (total_in redeem (stored w) + total_in redeem (records cells history))
subscribe-get_stats o cells jettons client run_method sync_fuel {stored = stored} store counted last
      history feeds short fuel w enough fresh before =
    let (v, done, inserted, _) =
      subscribe-insert_all o cells jettons client sync_fuel store last history feeds short fuel w
        enough in
    let rows : stored v ≡ stored w ++ records cells history =
      inserted ∙ insert_all-fresh (stored w) (records cells history) fresh in
    let scaled : All InSixDecimals (stored v) = subst (All InSixDecimals) (sym rows) (
      All-append InSixDecimals (stored w) (records cells history) before
        (records-InSixDecimals cells history)) in
    let (s, x, answered, minted, redeemed, _, _) = get_stats-ton o counted run_method v scaled in
    (
      v,
      s,
      x,
      done,
      answered,
      subst (IsUnits 6 s.minted)
          (ap (total_out mint) rows
            ∙ sum_of-filter_append (λ r. r.payload.out_amount.units) (λ r. type_eq r.type mint)
                (stored w) (records cells history))
          minted,
      subst (IsUnits 6 s.redeemed)
          (ap (total_in redeem) rows
            ∙ sum_of-filter_append (λ r. r.payload.in_amount.units) (λ r. type_eq r.type redeem)
                (stored w) (records cells history))
          redeemed,
    )
