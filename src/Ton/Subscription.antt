-- ===== src/Ton/Subscription.antt =====
-- src/modules/ton/account-subscription.service.ts: the handling of transactions and the loop that
-- fetches them; `createTransaction` and `getLastTransaction` are those of ton.service.ts.
use vnst_be.Base.{
  ℕ, zero, suc, Bool, true, false, Option, none, some, List, [], ◌∷◌, ◌++◌, Text, decimal, txt,
  truthy, get_last?, if◌then◌else◌, Io, ok, bind, pure, ◌>>=◌, ◌>>◌, try_catch, when,
}
use vnst_be.Schema.Chains.{ton}
use vnst_be.Schema.Wallet.{Wallet}
use vnst_be.Schema.Notification.{NotificationType}
use vnst_be.Schema.Notification
use vnst_be.Schema.TonTransaction.{TransactionType, mint, redeem, transfer, TransactionParsed}
use vnst_be.External.Models.{CreateNotification}
use vnst_be.External.Infra.{Outside}
use vnst_be.Email.Service.{TransactionMessage, send_email_transaction}
use vnst_be.Utils.Retry.{retry}
use vnst_be.Wallets.Service.{find_by_wallet_address}
use vnst_be.Ton.Cells.{Cells}
use vnst_be.Ton.Proof.{or_throw}
use vnst_be.Ton.Parse.{Transaction, parse_transaction}
use vnst_be.Ton.Schedule.{JettonClient, sync_balances}

-- The arguments of `tonClient.getTransactions`; `inclusive` is false and `archival` true.
pub record TransactionsQuery : Type 0 where
  pub lt : Option Text
  pub limit : ℕ
  pub hash : Option Text
  pub to_lt : Option Text

abbrev pub TonClient : Type 0 → Type 0 → Type 0
TonClient W Cell = TransactionsQuery → Io W (List (Transaction Cell))

pub record Batch (Cell : Type 0) : Type 0 where
  pub has_more : Bool
  pub transactions : List (Transaction Cell)
  pub lt : Option Text
  pub hash : Option Text

-- `type === MINT ? NotificationType.MINT : NotificationType.REDEEM`
abbrev pub noti_type : TransactionType → NotificationType
noti_type mint = Notification.mint
noti_type redeem = Notification.redeem
noti_type transfer = Notification.redeem

abbrev pub is_transfer : TransactionType → Bool
is_transfer mint = false
is_transfer redeem = false
is_transfer transfer = true

module _ {W Cell Slice : Type 0} (o : Outside W) (cells : Cells Cell Slice)
    (jettons : JettonClient W) (client : TonClient W Cell) where
  unfoldable pub create_transaction : TransactionParsed → Io W (Unit {0})
  create_transaction p = do o.ton_transactions.save p; pure tt

  abbrev pub new_notification : TransactionParsed → Wallet → CreateNotification
  new_notification p wallet = record {
    wallet = wallet.id;
    metadata = record {
      amount_in = p.payload.in_amount;
      amount_out = p.payload.out_amount;
      transaction_hash = some p.hash;
      timestamp = p.timestamp;
    };
    type = noti_type p.type;
    read = false;
  }

  -- The subject says "Minted" for each type of transaction.
  abbrev pub new_message : TransactionParsed → Wallet → Text → TransactionMessage
  new_message p wallet friendly = record {
    recipient = wallet.email;
    subject = txt "[VNST] Successfully Minted - " ++ o.library.format_date p.timestamp;
    wallet_address = friendly;
    transaction_hash = some p.hash;
    network = ton;
  }

  unfoldable pub send_message : TransactionParsed → Wallet → Io W (Unit {0})
  send_message p wallet = do
    friendly ← or_throw (o.library.ton_friendly wallet.wallet_address)
    send_email_transaction o (new_message p wallet friendly) (noti_type p.type)

  unfoldable pub notify_wallet : TransactionParsed → Option Wallet → Io W (Unit {0})
  notify_wallet p none = pure tt
  notify_wallet p (some wallet) = do
    o.notifications.create (new_notification p wallet)
    when wallet.enabled_noti (send_message p wallet)

  -- From the test for a transfer on.
  unfoldable pub notify_owner : TransactionParsed → Io W (Unit {0})
  notify_owner p =
      if is_transfer p.type
      then pure tt
      else find_by_wallet_address o p.from_address >>= notify_wallet p

  -- What follows the reading of the balance; `false` means that it never ends, and nothing follows.
  unfoldable pub after_sync : TransactionParsed → Bool → Io W Bool
  after_sync p false = pure false
  after_sync p true = do notify_owner p; pure true

  -- The balance is that of one owner: `sync_fuel` bounds the pages of its wallets. The value is `false`
  -- where that fuel runs out.
  unfoldable pub handle_parsed : ℕ → Option TransactionParsed → Io W Bool
  handle_parsed sync_fuel none = pure true
  handle_parsed sync_fuel (some p) = do
    create_transaction p
    synced ← sync_balances o jettons sync_fuel (some (p.from_address ∷ []))
    after_sync p synced

  -- The body of the loop of `onTransactions`, with its `try`.
  unfoldable pub on_transaction : ℕ → Transaction Cell → Io W Bool
  on_transaction sync_fuel tx =
      try_catch (or_throw (parse_transaction cells tx) >>= handle_parsed sync_fuel) (λ e. pure true)

  -- The loop; a transaction whose handling never ends is the last that is begun.
  unfoldable pub on_transactions : ℕ → List (Transaction Cell) → Io W Bool
  on_transactions sync_fuel [] w = ok true w
  on_transactions sync_fuel (tx ∷ txs) w =
      bind (on_transaction sync_fuel tx w)
        λ ended v. elim ended [ true ↦ on_transactions sync_fuel txs v | false ↦ ok false v ]

  unfoldable pub batch_of : List (Transaction Cell) → Batch Cell
  batch_of txs = elim (get_last? txs) [
    | none ↦ record { has_more = false; transactions = txs; lt = none; hash = none }
    | some tx ↦ record {
      has_more = true;
      transactions = txs;
      lt = some (decimal tx.lt);
      hash = some tx.hash_base64;
    }
  ]

  abbrev pub batch_query : Option Text → Option Text → Option Text → TransactionsQuery
  batch_query to_lt lt hash = record { lt = lt; limit = 100; hash = hash; to_lt = to_lt }

  unfoldable pub get_transactions_batch :
      Option Text → Option Text → Option Text → Io W (Batch Cell)
  get_transactions_batch to_lt lt hash = do
    transactions ←
        retry o.timer (client (batch_query to_lt lt hash)) (record { retries = 10; delay = 1000 })
    pure (batch_of transactions)

  -- `if (!iterationStartLt) iterationStartLt = res.transactions[0].lt.toString()`
  abbrev pub start_lt : Text → List (Transaction Cell) → Text
  start_lt start [] = start
  start_lt start (tx ∷ txs) = if truthy start then start else decimal tx.lt

  -- The loop of `subscribeToTransactionUpdate`; `none` means that the fuel has run out, here or in the
  -- handling of a transaction, otherwise the result is `iterationStartLt`.
  unfoldable pub fetch_rounds :
      ℕ → ℕ → Option Text → Text → Option Text → Option Text → Io W (Option Text)
  fetch_rounds sync_fuel zero last start lt hash w = ok none w
  fetch_rounds sync_fuel (suc fuel) last start lt hash w =
      bind (get_transactions_batch last lt hash w) λ res v.
        bind (on_transactions sync_fuel res.transactions v) λ ended u. elim ended [
          | true ↦ elim res.has_more [
            | true ↦
                fetch_rounds sync_fuel fuel last (start_lt start res.transactions) res.lt res.hash u
            | false ↦ ok (some (start_lt start res.transactions)) u
          ]
          | false ↦ ok none u
        ]

  -- `if (iterationStartLt) this.lastIndexedLt = iterationStartLt`
  abbrev pub next_indexed : Option Text → Text → Option Text
  next_indexed last start = if truthy start then some start else last

  -- The result is the new `lastIndexedLt`.
  unfoldable pub subscribe_to_transaction_update : ℕ → ℕ → Option Text → Io W (Option (Option Text))
  subscribe_to_transaction_update sync_fuel fuel last = do
    start ← fetch_rounds sync_fuel fuel last [] none none
    pure (elim start [ none ↦ none | some s ↦ some (next_indexed last s) ])

  -- `onModuleInit`: the `lastIndexedLt` to begin with.
  unfoldable pub first_indexed : Io W (Option Text)
  first_indexed =
      try_catch
        (do
          latest ← o.ton_transactions.find_latest
          pure (elim latest [ none ↦ none | some tx ↦ some tx.lt ]))
        (λ e. pure none)
