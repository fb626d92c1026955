-- ===== src/Ton/SubscriptionLaws.antt =====
-- On `subscribeToTransactionUpdate`, src/modules/ton/account-subscription.service.ts.
use mathlib.Core.List.{append_assoc, append-nil}
use vnst_be.Base.{
  ℕ, zero, suc, ◌<◌, ◌≡◌, refl, sym, ◌∙◌, ap, true, Option, none, some, List, [], ◌∷◌, ◌++◌, Text,
  decimal, decimal-truthy, length, take, drop, take-append-drop, length-drop, get_last?, Io, ok,
  bind, recover, pure, ◌>>=◌, arith, inl, inr, Result-cases, ok-injective,
}
use vnst_be.External.Infra.{Outside}
use vnst_be.Utils.Retry.{retry, retry_rounds}
use vnst_be.Ton.Cells.{Cells}
use vnst_be.Schema.TonTransaction.{TransactionParsed}
use vnst_be.Ton.Proof.{or_throw}
use vnst_be.Ton.Parse.{Transaction, parse_transaction}
use vnst_be.Ton.Schedule.{JettonClient}
use vnst_be.Ton.ScheduleLaws.{IsShort, sync_balances-ends}
use vnst_be.Ton.Subscription.{
  TonClient, batch_of, batch_query, get_transactions_batch, create_transaction, notify_owner,
  after_sync, handle_parsed, on_transaction, on_transactions, start_lt, fetch_rounds, next_indexed,
  subscribe_to_transaction_update,
}

get_last?-append {ℓ} :
    {A : Type ℓ} (xs : List A) (y : A) (ys : List A) → get_last? (xs ++ y ∷ ys) ≡ get_last? (y ∷ ys)
get_last?-append [] y ys = refl
get_last?-append (x ∷ []) y ys = refl
get_last?-append (x ∷ z ∷ xs) y ys = get_last?-append (z ∷ xs) y ys

get_last?-cons {ℓ} : {A : Type ℓ} (x : A) (xs : List A) → (y : A) × (get_last? (x ∷ xs) ≡ some y)
get_last?-cons x [] = (x, refl)
get_last?-cons x (z ∷ xs) = get_last?-cons z xs

pub retry_first :
    {W A : Type 0} (o : Outside W) (fn : Io W A) (n delay : ℕ) (w : W) {a : A} {v : W}
    → fn w ≡ ok a v
    → retry o.timer fn (record { retries = suc n; delay = delay }) w ≡ ok a v
unfolding retry retry_rounds
retry_first o fn n delay w e = rw (e, retry_rounds)

module _ {W Cell Slice : Type 0} (o : Outside W) (cells : Cells Cell Slice)
    (jettons : JettonClient W) (client : TonClient W Cell) (sync_fuel : ℕ) where
  -- Where a request goes on behind the transactions that were fetched before.
  abbrev pub cursor_lt : Option (Transaction Cell) → Option Text
  cursor_lt none = none
  cursor_lt (some tx) = some (decimal tx.lt)

  abbrev pub cursor_hash : Option (Transaction Cell) → Option Text
  cursor_hash none = none
  cursor_hash (some tx) = some tx.hash_base64

  -- `history` is what is newer than `last`, newest first. A request gives the hundred transactions
  -- behind the one that it names, or the first hundred, and changes nothing.
  abbrev pub Feeds : Option Text → List (Transaction Cell) → Type 0
  Feeds last history =
      (before after : List (Transaction Cell)) (w : W)
      → before ++ after ≡ history
      → client
          (batch_query o cells jettons client last (cursor_lt (get_last? before))
            (cursor_hash (get_last? before)))
          w
        ≡ ok (take 100 after) w

  -- The newest transaction of `history`, or what was known before.
  abbrev pub newest : Option Text → List (Transaction Cell) → Option Text
  newest last [] = last
  newest last (tx ∷ txs) = some (decimal tx.lt)

  after_sync-ends :
      (p : TransactionParsed) (w : W)
      → (v : W) × (recover (after_sync o cells jettons client p true w) (λ e. pure true)
          ≡ ok true v)
  unfolding after_sync
  after_sync-ends p w = elim (Result-cases (notify_owner o cells jettons client p w)) [
    | inl (_, v, e) ↦ (v, rw (e, after_sync) refl)
    | inr (x, v, e) ↦ (v, rw (e, after_sync) refl)
  ]

  handle_parsed-ends :
      IsShort jettons sync_fuel
      → (p : TransactionParsed) (w : W)
      → (v : W) × (recover
            (handle_parsed o cells jettons client sync_fuel (some p) w)
            (λ e. pure true)
          ≡ ok true v)
  unfolding handle_parsed
  handle_parsed-ends short p w =
      elim (Result-cases (create_transaction o cells jettons client p w)) [
        | inl (_, u, saved) ↦
            let (x, synced) = sync_balances-ends o jettons sync_fuel short p.from_address u in
            let (v, rest) = after_sync-ends p x in (v, rw (saved, synced) rest)
        | inr (x, v, e) ↦ (v, rw e refl)
      ]

  pub on_transaction-total :
      IsShort jettons sync_fuel
      → (tx : Transaction Cell) (w : W)
      → (v : W) × (on_transaction o cells jettons client sync_fuel tx w ≡ ok true v)
  unfolding on_transaction handle_parsed
  on_transaction-total short tx w = go (parse_transaction cells tx)
    where
      go :
          (r : Option (Option TransactionParsed))
          → (v : W) × (recover
                ((or_throw r >>= handle_parsed o cells jettons client sync_fuel) w)
                (λ e. pure true)
              ≡ ok true v)
      go none = (w, refl)
      go (some none) = (w, refl)
      go (some (some p)) = handle_parsed-ends short p w

  pub on_transactions-total :
      IsShort jettons sync_fuel
      → (txs : List (Transaction Cell)) (w : W)
      → (v : W) × (on_transactions o cells jettons client sync_fuel txs w ≡ ok true v)
  unfolding on_transactions
  on_transactions-total short [] w = (w, refl)
  on_transactions-total short (tx ∷ txs) w =
      let (u, e) = on_transaction-total short tx w in
      let (v, f) = on_transactions-total short txs u in (v, rw (e, on_transactions) f)

  on_transactions-append :
      IsShort jettons sync_fuel
      → (xs ys : List (Transaction Cell)) (w u : W)
      → on_transactions o cells jettons client sync_fuel xs w ≡ ok true u
      → on_transactions o cells jettons client sync_fuel (xs ++ ys) w
        ≡ on_transactions o cells jettons client sync_fuel ys u
  unfolding on_transactions
  on_transactions-append short [] ys w u e =
      ap (on_transactions o cells jettons client sync_fuel ys) (ok-injective _ refl e)
  on_transactions-append short (x ∷ xs) ys w u e =
      let (v, first) = on_transaction-total short x w in
      let rest : on_transactions o cells jettons client sync_fuel xs v ≡ ok true u =
        rw (first, on_transactions) at e in
      rw (first, on_transactions) (on_transactions-append short xs ys v u rest)

  start_lt-append :
      (before : List (Transaction Cell)) (tx : Transaction Cell) (txs : List (Transaction Cell))
      → start_lt o cells jettons client (start_lt o cells jettons client [] before) (tx ∷ txs)
        ≡ start_lt o cells jettons client [] (before ++ tx ∷ txs)
  start_lt-append [] tx txs = refl
  start_lt-append (b ∷ bs) tx txs = rw (decimal-truthy b.lt)

  pub batch_of-cons :
      (tx : Transaction Cell) (txs : List (Transaction Cell))
      → batch_of o cells jettons client (tx ∷ txs) ≡ record {
        has_more = true;
        transactions = tx ∷ txs;
        lt = cursor_lt (get_last? (tx ∷ txs));
        hash = cursor_hash (get_last? (tx ∷ txs));
      }
  unfolding batch_of
  batch_of-cons tx txs = let (y, e) = get_last?-cons tx txs in rw (e, batch_of)

  module _ (last : Option Text) (history : List (Transaction Cell)) (feeds : Feeds last history)
      (short : IsShort jettons sync_fuel) where
    get_batch :
        (before after : List (Transaction Cell)) (w : W)
        → before ++ after ≡ history
        → get_transactions_batch o cells jettons client last
            (cursor_lt (get_last? before))
            (cursor_hash (get_last? before))
            w
          ≡ ok (batch_of o cells jettons client (take 100 after)) w
    unfolding get_transactions_batch
    get_batch before after w e =
        ap (λ r. bind r (λ txs. pure (batch_of o cells jettons client txs)))
          (retry_first o
            (client (
              batch_query o cells jettons client last (cursor_lt (get_last? before))
                (cursor_hash (get_last? before))))
            9 1000 w (feeds before after w e))

    round-more :
        (fuel : ℕ) (before : List (Transaction Cell)) (tx : Transaction Cell)
        (txs : List (Transaction Cell)) (start : Text) (w u : W)
        → before ++ tx ∷ txs ≡ history
        → on_transactions o cells jettons client sync_fuel (tx ∷ take 99 txs) w ≡ ok true u
        → fetch_rounds o cells jettons client sync_fuel
            (suc fuel)
            last
            start
            (cursor_lt (get_last? before))
            (cursor_hash (get_last? before))
            w
          ≡ fetch_rounds o cells jettons client sync_fuel fuel last
              (start_lt o cells jettons client start (tx ∷ take 99 txs))
              (cursor_lt (get_last? (tx ∷ take 99 txs)))
              (cursor_hash (get_last? (tx ∷ take 99 txs)))
              u
    unfolding fetch_rounds
    round-more fuel before tx txs start w u e h =
        let batch =
          get_batch before (tx ∷ txs) w e ∙ ap (λ b. ok b w) (batch_of-cons tx (take 99 txs)) in
        rw (batch, h, fetch_rounds)

    fetch_rounds-on_transactions :
        (fuel : ℕ) (before after : List (Transaction Cell)) (w v : W)
        → before ++ after ≡ history
        → length after < fuel
        → on_transactions o cells jettons client sync_fuel after w ≡ ok true v
        → fetch_rounds o cells jettons client sync_fuel fuel last
            (start_lt o cells jettons client [] before)
            (cursor_lt (get_last? before))
            (cursor_hash (get_last? before))
            w
          ≡ ok (some (start_lt o cells jettons client [] history)) v
    unfolding fetch_rounds batch_of
    fetch_rounds-on_transactions zero before after w v e enough h = absurd (omega arith)
    fetch_rounds-on_transactions (suc fuel) before [] w v e enough h =
        rw (get_batch before [] w e, batch_of, h, fetch_rounds)
          (ap (λ l. ok (some (start_lt o cells jettons client [] l)) v)
            (sym (append-nil before) ∙ e))
    fetch_rounds-on_transactions (suc fuel) before (tx ∷ txs) w v e enough h =
        let page = tx ∷ take 99 txs in
        let split : page ++ drop 99 txs ≡ tx ∷ txs = ap (◌∷◌ tx) (take-append-drop 99 txs) in
        let (u, first) = on_transactions-total short page w in
        let later =
          sym (on_transactions-append short page (drop 99 txs) w u first)
          ∙ ap (λ l. on_transactions o cells jettons client sync_fuel l w) split
          ∙ h in
        let whole : (before ++ page) ++ drop 99 txs ≡ history =
          append_assoc before page (drop 99 txs) ∙ ap (◌++◌ before) split ∙ e in
        let rest =
          fetch_rounds-on_transactions fuel (before ++ page) (drop 99 txs) u v whole
            (omega (arith, length-drop 99 txs)) later in
        round-more fuel before tx txs (start_lt o cells jettons client [] before) w u e first
        ∙ rw (start_lt-append before tx (take 99 txs), ← get_last?-append before tx (take 99 txs))
            rest

-- Let `history` be the transactions that are newer than `lastIndexedLt`, newest first. If the node
-- gives them hundred by hundred without a change, and the service of balances lists at most a hundred
-- wallets of an owner from the last page on that `sync_fuel` rounds reach, then with more rounds than
-- transactions one update ends, it handles exactly the transactions of `history`, each once and in
-- that order, and `lastIndexedLt` becomes the logical time of the newest, or stays if there is none.
pub subscribe-on_transactions :
    {W Cell Slice : Type 0} (o : Outside W) (cells : Cells Cell Slice) (jettons : JettonClient W)
    (client : TonClient W Cell) (sync_fuel : ℕ) (last : Option Text)
    (history : List (Transaction Cell))
    → Feeds o cells jettons client sync_fuel last history
    → IsShort jettons sync_fuel
    → (fuel : ℕ) (w : W) → length history < fuel
    → (v : W) × (on_transactions o cells jettons client sync_fuel history w ≡ ok true v)
      × (subscribe_to_transaction_update o cells jettons client sync_fuel fuel last w
          ≡ ok (some (newest o cells jettons client sync_fuel last history)) v)
unfolding subscribe_to_transaction_update
subscribe-on_transactions {Cell} o cells jettons client sync_fuel last history feeds short fuel w
      enough =
    let (v, done) = on_transactions-total o cells jettons client sync_fuel short history w in
    let run =
      fetch_rounds-on_transactions o cells jettons client sync_fuel last history feeds short fuel []
        history w v refl enough done in
    (v, done, rw run (ap (λ x. ok (some x) v) (next_indexed-start history)))
  where
    next_indexed-start :
        (l : List (Transaction Cell))
        → next_indexed o cells jettons client last (start_lt o cells jettons client [] l)
          ≡ newest o cells jettons client sync_fuel last l
    next_indexed-start [] = refl
    next_indexed-start (tx ∷ txs) = rw (decimal-truthy tx.lt)
