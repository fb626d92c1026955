-- ===== src/Ton/StoredLaws.antt =====
-- On what an update of the subscription stores, src/modules/ton/account-subscription.service.ts.
use vnst_be.Base.{
  ok-injective, All-split, Exception, thrown, recover, try_catch, ℕ, ◌<◌, ◌≡◌, refl, sym, ap, ◌∙◌,
  true, false, Bool, Leaves, Option, none, some, List, [], ◌∷◌, length, Text, All, ok, pure, ◌>>=◌,
  end_of, end_of-bind, end_of-catch, bind-Leaves, pure-Leaves,
}
use vnst_be.Schema.TonTransaction.{TonTransaction, TransactionParsed}
use vnst_be.External.Infra.{Outside}
use vnst_be.Ton.Cells.{Cells}
use vnst_be.Ton.Proof.{or_throw}
use vnst_be.Ton.Parse.{Transaction, parse_transaction}
use vnst_be.Ton.Schedule.{JettonClient, sync_balances}
use vnst_be.Ton.ScheduleLaws.{IsShort}
use vnst_be.Ton.Subscription.{
  TonClient, create_transaction, notify_owner, after_sync, handle_parsed, on_transaction,
  on_transactions, subscribe_to_transaction_update,
}
use vnst_be.Ton.SubscriptionLaws.{Feeds, newest, on_transaction-total, subscribe-on_transactions}
use vnst_be.Ton.InsertLaws.{insert_all-is_stored}
use vnst_be.Ton.Stored.{
  is_stored, insert, insert_all, insert_all-append, parsed_record, records, IsTonStore,
  sync_rounds-Leaves, notify_owner-Leaves,
}

module _ {W Cell Slice : Type 0} (o : Outside W) (cells : Cells Cell Slice)
    (jettons : JettonClient W) (client : TonClient W Cell) (sync_fuel : ℕ)
    {stored : W → List TonTransaction} (store : IsTonStore o jettons stored) where
  after_sync-Leaves :
      (p : TransactionParsed) (synced : Bool)
      → Leaves stored (after_sync o cells jettons client p synced)
  unfolding after_sync
  after_sync-Leaves p false = pure-Leaves stored false
  after_sync-Leaves p true =
      bind-Leaves stored (notify_owner o cells jettons client p) (λ _. pure true)
        (notify_owner-Leaves o cells jettons client sync_fuel store p)
        (λ _. pure-Leaves stored true)

  handle_parsed-insert :
      (p : TransactionParsed) (w : W)
      → stored (end_of (handle_parsed o cells jettons client sync_fuel (some p) w))
        ≡ insert (stored w) p
  unfolding handle_parsed create_transaction sync_balances
  handle_parsed-insert p w =
      end_of-bind stored (create_transaction o cells jettons client p) _ w (λ _.
        bind-Leaves stored (sync_balances o jettons sync_fuel (some (p.from_address ∷ [])))
          (after_sync o cells jettons client p)
          (sync_rounds-Leaves o cells jettons client sync_fuel store sync_fuel _ 0)
          (after_sync-Leaves p))
      ∙ end_of-bind stored (o.ton_transactions.save p) (λ _. pure tt) w (λ _. pure-Leaves stored tt)
      ∙ store.saves p w

  on_transaction-stores :
      (tx : Transaction Cell) (w : W)
      → stored (end_of (on_transaction o cells jettons client sync_fuel tx w))
        ≡ insert_all (stored w) (parsed_record (parse_transaction cells tx))
  unfolding on_transaction handle_parsed insert_all
  on_transaction-stores tx w =
      end_of-catch stored
        (or_throw (parse_transaction cells tx) >>= handle_parsed o cells jettons client sync_fuel)
        true w
      ∙ go (parse_transaction cells tx)
    where
      go :
          (r : Option (Option TransactionParsed))
          → stored (end_of ((or_throw r >>= handle_parsed o cells jettons client sync_fuel) w))
            ≡ insert_all (stored w) (parsed_record r)
      go none = refl
      go (some none) = refl
      go (some (some p)) = handle_parsed-insert p w

  pub on_transactions-stores :
      IsShort jettons sync_fuel
      → (txs : List (Transaction Cell)) (w v : W)
      → on_transactions o cells jettons client sync_fuel txs w ≡ ok true v
      → stored v ≡ insert_all (stored w) (records cells txs)
  unfolding on_transactions insert_all
  on_transactions-stores short [] w v e = let same : w ≡ v = cc in ap stored (sym same)
  on_transactions-stores short (tx ∷ txs) w v e =
      let (u, first) = on_transaction-total o cells jettons client sync_fuel short tx w in
      let rest : on_transactions o cells jettons client sync_fuel txs u ≡ ok true v =
        rw (first, on_transactions) at e in
      let here : stored u ≡ insert_all (stored w) (parsed_record (parse_transaction cells tx)) =
        ap (λ r. stored (end_of r)) (sym first) ∙ on_transaction-stores tx w in
      on_transactions-stores short txs u v rest
      ∙ ap (λ rows. insert_all rows (records cells txs)) here
      ∙ sym (
          insert_all-append (stored w) (parsed_record (parse_transaction cells tx))
            (records cells txs))

-- If saving a transaction inserts it under its hash, what else the handler does leaves the collection
-- alone, the node gives `history`, which is what is newer than `last`, hundred by hundred, and the
-- service of balances lists at most a hundred wallets of an owner from the last page on that
-- `sync_fuel` rounds reach, then an update with a round for each transaction and one more ends,
-- remembers the newest logical time, and the records of `history` have been inserted in order,
-- whatever else failed for them: each is stored.
pub subscribe-insert_all :
    {W Cell Slice : Type 0} (o : Outside W) (cells : Cells Cell Slice) (jettons : JettonClient W)
    (client : TonClient W Cell) (sync_fuel : ℕ) {stored : W → List TonTransaction}
    → IsTonStore o jettons stored
    → (last : Option Text) (history : List (Transaction Cell))
    → Feeds o cells jettons client sync_fuel last history
    → IsShort jettons sync_fuel
    → (fuel : ℕ) (w : W) → length history < fuel
    → (v : W) × (subscribe_to_transaction_update o cells jettons client sync_fuel fuel last w
        ≡ ok (some (newest o cells jettons client sync_fuel last history)) v)
      × (stored v ≡ insert_all (stored w) (records cells history))
      × All (λ p. is_stored p.hash (stored v) ≡ true) (records cells history)
subscribe-insert_all o cells jettons client sync_fuel {stored = stored} store last history feeds
      short fuel w enough =
    let (v, handled, done) =
      subscribe-on_transactions o cells jettons client sync_fuel last history feeds short fuel w
        enough in
    let rows =
      on_transactions-stores o cells jettons client sync_fuel store short history w v handled in
    (v, done, rows, rw rows (insert_all-is_stored (stored w) (records cells history)))

-- The unique index also refuses a transaction with a stored hash, and then changes nothing.
pub record IsUniqueStore {W : Type 0} (o : Outside W) (jettons : JettonClient W)
    (stored : W → List TonTransaction) : Type 0 where
  pub store : IsTonStore o jettons stored
  pub refuses :
      (p : TonTransaction) (w : W)
      → is_stored p.hash (stored w) ≡ true
      → (e : Exception) × (o.ton_transactions.save p w ≡ thrown e w)

module _ {W Cell Slice : Type 0} (o : Outside W) (cells : Cells Cell Slice)
    (jettons : JettonClient W) (client : TonClient W Cell) (sync_fuel : ℕ)
    {stored : W → List TonTransaction} (unique : IsUniqueStore o jettons stored) where
  handle_parsed-known :
      (p : TransactionParsed) (w : W)
      → is_stored p.hash (stored w) ≡ true
      → (e : Exception) × (handle_parsed o cells jettons client sync_fuel (some p) w ≡ thrown e w)
  unfolding handle_parsed create_transaction
  handle_parsed-known p w h = let (e, refused) = unique.refuses p w h in (e, rw refused refl)

  on_transaction-known :
      (tx : Transaction Cell) (w : W)
      → All (λ p. is_stored p.hash (stored w) ≡ true) (parsed_record (parse_transaction cells tx))
      → on_transaction o cells jettons client sync_fuel tx w ≡ ok true w
  unfolding on_transaction handle_parsed
  on_transaction-known tx w h = go (parse_transaction cells tx) h
    where
      go :
          (r : Option (Option TransactionParsed))
          → All (λ p. is_stored p.hash (stored w) ≡ true) (parsed_record r)
          → try_catch
              (or_throw r >>= handle_parsed o cells jettons client sync_fuel)
              (λ e. pure true)
              w
            ≡ ok true w
      go none h = refl
      go (some none) h = refl
      go (some (some p)) (here, _) =
          let (e, refused) = handle_parsed-known p w here in
          ap (λ r. recover r (λ e. pure true)) refused

  on_transactions-known :
      (txs : List (Transaction Cell)) (w : W)
      → All (λ p. is_stored p.hash (stored w) ≡ true) (records cells txs)
      → on_transactions o cells jettons client sync_fuel txs w ≡ ok true w
  unfolding on_transactions
  on_transactions-known [] w h = refl
  on_transactions-known (tx ∷ txs) w h =
      let (here, later) =
        All-split (λ p. is_stored p.hash (stored w) ≡ true)
          (parsed_record (parse_transaction cells tx)) (records cells txs) h in
      rw (on_transaction-known tx w here, on_transactions) (on_transactions-known txs w later)

-- If saving a transaction inserts it under its hash, and with a stored hash is refused without a
-- change, what else the handler does leaves the collection alone, the node gives `history`, which is
-- what is newer than `last`, hundred by hundred, and the service of balances lists at most a hundred
-- wallets of an owner from the last page on that `sync_fuel` rounds reach, then an update with a
-- round for each transaction and one more ends, and one that is given the same transactions again, as
-- after a restart with an older cursor, ends in the same way and changes nothing: nobody is notified
-- of a transaction twice, and no balance is read again.
pub subscribe_again :
    {W Cell Slice : Type 0} (o : Outside W) (cells : Cells Cell Slice) (jettons : JettonClient W)
    (client : TonClient W Cell) (sync_fuel : ℕ) {stored : W → List TonTransaction}
    → IsUniqueStore o jettons stored
    → (last : Option Text) (history : List (Transaction Cell))
    → Feeds o cells jettons client sync_fuel last history
    → IsShort jettons sync_fuel
    → (fuel : ℕ) (w : W) → length history < fuel
    → (v : W) × (subscribe_to_transaction_update o cells jettons client sync_fuel fuel last w
        ≡ ok (some (newest o cells jettons client sync_fuel last history)) v)
      × (subscribe_to_transaction_update o cells jettons client sync_fuel fuel last v
          ≡ ok (some (newest o cells jettons client sync_fuel last history)) v)
subscribe_again o cells jettons client sync_fuel unique last history feeds short fuel w enough =
    let (v, done, rows, known) =
      subscribe-insert_all o cells jettons client sync_fuel unique.store last history feeds short
        fuel w enough in
    let (v', handled, again) =
      subscribe-on_transactions o cells jettons client sync_fuel last history feeds short fuel v
        enough in
    let quiet = on_transactions-known o cells jettons client sync_fuel unique history v known in
    let same = ok-injective _ handled quiet in
    (v, done, again ∙ ap (ok (some (newest o cells jettons client sync_fuel last history))) same)
