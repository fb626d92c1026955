-- ===== src/Ton/RestartLaws.antt =====
-- On a restart after an update that failed, src/modules/ton/account-subscription.service.ts.
use mathlib.Core.List.{Memᴰ}
use vnst_be.Base.{
  subst, ℕ, zero, suc, ◌<◌, ◌≡◌, refl, sym, ap, ◌∙◌, inl, inr, ◌⊎◌, false, Option, none, some, List,
  [], ◌∷◌, ◌++◌, length, true, Text, decimal, Exception, Io, ok, thrown, bind, pure, end_of,
  Result-cases, Leaves, get_last?,
}
use vnst_be.Schema.TonTransaction.{TonTransaction, TransactionParsed}
use vnst_be.External.Infra.{Outside}
use vnst_be.Utils.Retry.{Timer, remember, last_error, retry, retry_rounds}
use vnst_be.Ton.Cells.{Cells}
use vnst_be.Ton.Parse.{Transaction, parse_transaction}
use vnst_be.Ton.Schedule.{JettonClient}
use vnst_be.Ton.ScheduleLaws.{IsShort}
use vnst_be.Ton.Subscription.{
  TonClient, TransactionsQuery, batch_query, batch_of, get_transactions_batch, on_transactions,
  fetch_rounds, subscribe_to_transaction_update, first_indexed,
}
use vnst_be.Ton.SubscriptionLaws.{
  cursor_lt, cursor_hash, Feeds, newest, retry_first, batch_of-cons, on_transactions-total,
}
use vnst_be.Ton.ParseLaws.{parse_transaction-IsRecord}
use vnst_be.Ton.InsertLaws.{IsLatest, insert_all-IsLatest}
use vnst_be.Ton.Stored.{parsed_record, is_stored, insert_all, records, IsTonStore}
use vnst_be.Ton.StoredLaws.{on_transactions-stores, subscribe-insert_all}

module _ {W S A : Type 0} (timer : Timer W) (view : W → S)
    (sleeps : (ms : ℕ) → Leaves view (timer.sleep ms)) (fn : Io W A)
    (fails : (w : W) → (e : Exception) × (v : W) × (fn w ≡ thrown e v) × (view v ≡ view w)) where
  retry_rounds-thrown :
      (delay n : ℕ) (last : Option Exception) (w : W)
      → (e : Exception) × (v : W) × (retry_rounds timer fn delay n last w ≡ thrown e v)
        × (view v ≡ view w)
  unfolding retry_rounds
  retry_rounds-thrown delay zero last w = (last_error last, w, refl, refl)
  retry_rounds-thrown delay (suc n) last w =
      let (e, v, failed, same) = fails w in
      let pause : view (end_of (timer.sleep delay v)) ≡ view v = sleeps delay v in
      elim (Result-cases (timer.sleep delay v)) [
        | inl (a, u, woke) ↦
            let (e', v', rest, same') = retry_rounds-thrown delay n (remember e last) u in
            (
              e',
              v',
              rw (failed, retry_rounds, woke) rest,
              same' ∙ ap (λ r. view (end_of r)) (sym woke) ∙ pause ∙ same,
            )
        | inr (x, u, broke) ↦ (
          x,
          u,
          rw (failed, retry_rounds, broke) refl,
          ap (λ r. view (end_of r)) (sym broke) ∙ pause ∙ same,
        )
      ]

pub record IsTonArchive {W : Type 0} (o : Outside W) (jettons : JettonClient W)
    (stored : W → List TonTransaction) : Type 0 where
  pub store : IsTonStore o jettons stored
  pub latest :
      (w : W)
      → (t : Option TonTransaction) × (o.ton_transactions.find_latest w ≡ ok t w)
        × IsLatest t (stored w)

module _ {W Cell Slice : Type 0} (o : Outside W) (cells : Cells Cell Slice)
    (jettons : JettonClient W) (client : TonClient W Cell) (sync_fuel : ℕ)
    {stored : W → List TonTransaction} (archive : IsTonArchive o jettons stored)
    (last : Option Text) where
  -- The request for what is behind `before`.
  abbrev pub next_query : List (Transaction Cell) → TransactionsQuery
  next_query before =
      batch_query o cells jettons client last
        (cursor_lt o cells jettons client sync_fuel (get_last? before))
        (cursor_hash o cells jettons client sync_fuel (get_last? before))

  abbrev pub Fails : List (Transaction Cell) → Type 0
  Fails before =
      (w : W)
      → (e : Exception) × (v : W) × (client (next_query before) w ≡ thrown e v)
        × (stored v ≡ stored w)

  fetch_rounds-thrown :
      (fuel : ℕ) (start : Text) (before : List (Transaction Cell)) (w : W)
      → Fails before
      → (e : Exception) × (v : W) × (fetch_rounds o cells jettons client sync_fuel
            (suc fuel)
            last
            start
            (cursor_lt o cells jettons client sync_fuel (get_last? before))
            (cursor_hash o cells jettons client sync_fuel (get_last? before))
            w
          ≡ thrown e v)
        × (stored v ≡ stored w)
  unfolding fetch_rounds get_transactions_batch retry
  fetch_rounds-thrown fuel start before w fails =
      let (e, v, failed, same) =
        retry_rounds-thrown o.timer stored archive.store.sleeps (client (next_query before)) fails
          1000 10 none w in
      (e, v, rw (failed, fetch_rounds) refl, same)

  fetch_rounds-first :
      (fuel : ℕ) (tx : Transaction Cell) (page : List (Transaction Cell)) (w u : W)
      → client (next_query []) w ≡ ok (tx ∷ page) w
      → on_transactions o cells jettons client sync_fuel (tx ∷ page) w ≡ ok true u
      → fetch_rounds o cells jettons client sync_fuel (suc fuel) last [] none none w
        ≡ fetch_rounds o cells jettons client sync_fuel fuel last
            (decimal tx.lt)
            (cursor_lt o cells jettons client sync_fuel (get_last? (tx ∷ page)))
            (cursor_hash o cells jettons client sync_fuel (get_last? (tx ∷ page)))
            u
  unfolding fetch_rounds get_transactions_batch
  fetch_rounds-first fuel tx page w u answered handled =
      let batch : get_transactions_batch o cells jettons client last none none w ≡ ok _ w =
        ap (λ r. bind r (λ txs. pure (batch_of o cells jettons client txs)))
          (retry_first o (client (next_query [])) 9 1000 w answered)
        ∙ ap (λ b. ok b w) (batch_of-cons o cells jettons client sync_fuel tx page) in
      rw (batch, handled, fetch_rounds)

-- Let saving a transaction insert it under its hash, let what else the handler does leave the
-- collection alone, let `findLatest` give a document with the greatest timestamp without a change, and
-- let the service of balances list at most a hundred wallets of an owner from the last page on that
-- `sync_fuel` rounds reach. An update fetches a first page without a change, and then the node fails
-- for every request behind that page, which leaves the collection alone. If the newest transaction of
-- the page is a record that was not stored and is later than all others, then the update throws with
-- the records of the page stored, and a process that starts then begins with the logical time of that
-- newest transaction. If the node then gives `newer`, what is newer than that, hundred by hundred,
-- the next update ends, given a round for each and one more, and inserts the records of `newer` and
-- no others: none of what lies behind the page.
pub subscribe-first_indexed :
    {W Cell Slice : Type 0} (o : Outside W) (cells : Cells Cell Slice) (jettons : JettonClient W)
    (client : TonClient W Cell) (sync_fuel : ℕ) {stored : W → List TonTransaction}
    (archive : IsTonArchive o jettons stored) (last : Option Text) (tx : Transaction Cell)
    (page newer : List (Transaction Cell)) (p : TransactionParsed) (fuel fuel' : ℕ) (w : W)
    → IsShort jettons sync_fuel
    → client (next_query o cells jettons client sync_fuel archive last []) w ≡ ok (tx ∷ page) w
    → Fails o cells jettons client sync_fuel archive last (tx ∷ page)
    → parse_transaction cells tx ≡ some (some p)
    → is_stored p.hash (stored w) ≡ false
    → ((r : TonTransaction)
        → Memᴰ r (stored w) ⊎ Memᴰ r (records cells page)
        → r.timestamp < p.timestamp)
    → Feeds o cells jettons client sync_fuel (some (decimal tx.lt)) newer
    → length newer < fuel'
    → (e : Exception) × (u : W) × (subscribe_to_transaction_update o cells jettons client sync_fuel
          (suc (suc fuel))
          last
          w
        ≡ thrown e u)
      × (stored u ≡ insert_all (stored w) (p ∷ records cells page))
      × (first_indexed o cells jettons client u ≡ ok (some (decimal tx.lt)) u)
      × (x : W) × (subscribe_to_transaction_update o cells jettons client sync_fuel fuel'
            (some (decimal tx.lt))
            u
          ≡ ok (some (newest o cells jettons client sync_fuel (some (decimal tx.lt)) newer)) x)
      × (stored x ≡ insert_all (stored u) (records cells newer))
unfolding subscribe_to_transaction_update first_indexed
subscribe-first_indexed o cells jettons client sync_fuel {stored = stored} archive last tx page
      newer p fuel fuel' w short answered fails parsed fresh later feeds enough =
    let (v, handled) = on_transactions-total o cells jettons client sync_fuel short (tx ∷ page) w in
    let (e, u, failed, same) =
      fetch_rounds-thrown o cells jettons client sync_fuel archive last fuel (decimal tx.lt)
        (tx ∷ page) v fails in
    let first =
      fetch_rounds-first o cells jettons client sync_fuel archive last (suc fuel) tx page w v
        answered handled in
    let rows : stored u ≡ insert_all (stored w) (p ∷ records cells page) =
      same
      ∙ on_transactions-stores o cells jettons client sync_fuel archive.store short (tx ∷ page) w v
          handled
      ∙ ap (λ r. insert_all (stored w) (parsed_record r ++ records cells page)) parsed in
    let (t, found, greatest) = archive.latest u in
    let greatest_p : t ≡ some p =
      insert_all-IsLatest (stored w) (records cells page) p t fresh later
        (subst (λ x. IsLatest t x) rows greatest) in
    let lt : p.lt ≡ decimal tx.lt = (parse_transaction-IsRecord cells tx p parsed).lt in
    let (x, next, inserted, _) =
      subscribe-insert_all o cells jettons client sync_fuel archive.store (some (decimal tx.lt))
        newer feeds short fuel' u enough in
    (e, u, rw (first ∙ failed) refl, rows, rw (found, greatest_p, lt) refl, x, next, inserted)
