-- ===== src/Ton/Stored.antt =====
-- On the collection of transactions that `onTransactions` fills,
-- src/modules/ton/account-subscription.service.ts.
use vnst_be.Base.{
  ℕ, zero, suc, ◌+◌, ◌≡◌, refl, sym, ap, ◌∙◌, inl, inr, Bool, true, false, Option, none, some, List,
  [], ◌∷◌, ◌++◌, length, take, Text, text_eq, any, ltb, if◌then◌else◌, Result, ok, thrown, pure,
  for_each, end_of, Result-cases, Bool-cases, Leaves, pure-Leaves, bind-Leaves, catch-Leaves,
  when-Leaves, for_each-Leaves,
}
use vnst_be.Schema.Amount.{Amount}
use vnst_be.Schema.Amount.{format_units}
use vnst_be.Schema.Wallet.{Wallet}
use vnst_be.Schema.TonTransaction.{TonTransaction, TransactionParsed}
use vnst_be.External.Models.{WalletFilter, CreateWallet, CreateNotification}
use vnst_be.External.Infra.{Outside, Mail}
use vnst_be.Email.Service.{send_email_transaction}
use vnst_be.Wallets.Service.{find_by_wallet_address, create}
use vnst_be.Ton.Cells.{Cells}
use vnst_be.Ton.Proof.{or_throw}
use vnst_be.Ton.Parse.{Transaction, parse_transaction}
use vnst_be.Ton.Schedule.{
  JettonClient, JettonWallet, sync_limit, find_owner, owner_of, store_balance, sync_wallet,
  sync_page, sync_rounds,
}
use vnst_be.Ton.Subscription.{
  TonClient, send_message, notify_wallet, notify_owner, new_notification, is_transfer,
}

-- The documents after one was saved: the index on the hash is unique.
abbrev pub is_stored : Text → List TonTransaction → Bool
is_stored hash rows = any (λ r. text_eq r.hash hash) rows

unfoldable pub insert : List TonTransaction → TonTransaction → List TonTransaction
insert rows p = if is_stored p.hash rows then rows else rows ++ p ∷ []

unfoldable pub insert_all : List TonTransaction → List TonTransaction → List TonTransaction
insert_all rows [] = rows
insert_all rows (p ∷ ps) = insert_all (insert rows p) ps

-- What is to be stored of a transaction.
abbrev pub parsed_record : Option (Option TransactionParsed) → List TonTransaction
parsed_record none = []
parsed_record (some none) = []
parsed_record (some (some p)) = p ∷ []

abbrev pub records :
    {Cell Slice : Type 0} → Cells Cell Slice → List (Transaction Cell) → List TonTransaction
records cells [] = []
records cells (tx ∷ txs) = parsed_record (parse_transaction cells tx) ++ records cells txs

-- Saving a transaction inserts it, whether the answer is the document or an exception, and what else
-- the handler does leaves the collection alone.
pub record IsTonStore {W : Type 0} (o : Outside W) (jettons : JettonClient W)
    (stored : W → List TonTransaction) : Type 0 where
  pub saves :
      (p : TonTransaction) (w : W)
      → stored (end_of (o.ton_transactions.save p w)) ≡ insert (stored w) p
  pub finds : (filter : WalletFilter) → Leaves stored (o.wallets.find_one filter)
  pub keeps : (wallet : Wallet) → Leaves stored (o.wallets.save wallet)
  pub adds : (wallet : CreateWallet) → Leaves stored (o.wallets.create wallet)
  pub notifies : (n : CreateNotification) → Leaves stored (o.notifications.create n)
  pub sends : (mail : Mail) → Leaves stored (o.mailer.send mail)
  pub sleeps : (ms : ℕ) → Leaves stored (o.timer.sleep ms)
  pub asks :
      (limit offset : ℕ) (owners : Option (List Text)) → Leaves stored (jettons limit offset owners)

pub insert_all-append :
    (rows ps qs : List TonTransaction)
    → insert_all rows (ps ++ qs) ≡ insert_all (insert_all rows ps) qs
unfolding insert_all
insert_all-append rows [] qs = refl
insert_all-append rows (p ∷ ps) qs = insert_all-append (insert rows p) ps qs

module _ {W Cell Slice : Type 0} (o : Outside W) (cells : Cells Cell Slice)
    (jettons : JettonClient W) (client : TonClient W Cell) (sync_fuel : ℕ)
    {stored : W → List TonTransaction} (store : IsTonStore o jettons stored) where
  store_balance-Leaves :
      (owner : Option Text) (balance : Amount) (wallet : Option Wallet)
      → Leaves stored (store_balance o jettons owner balance wallet)
  unfolding store_balance create
  store_balance-Leaves owner balance (some wallet) =
      bind-Leaves stored (o.wallets.save _) (λ _. pure tt) (store.keeps _)
        (λ _. pure-Leaves stored tt)
  store_balance-Leaves owner balance none =
      bind-Leaves stored (o.wallets.create _) (λ _. pure tt) (store.adds _)
        (λ _. pure-Leaves stored tt)

  find_owner-Leaves : (owner : Option Text) → Leaves stored (find_owner o jettons owner)
  unfolding find_owner find_by_wallet_address
  find_owner-Leaves none = store.finds _
  find_owner-Leaves (some owner) = store.finds _

  sync_wallet-Leaves : (jetton : JettonWallet) → Leaves stored (sync_wallet o jettons jetton)
  unfolding sync_wallet
  sync_wallet-Leaves jetton =
      bind-Leaves stored (find_owner o jettons (owner_of o jettons jetton))
        (store_balance o jettons (owner_of o jettons jetton) (format_units jetton.balance 6))
        (find_owner-Leaves _) (store_balance-Leaves _ _)

  sync_page-Leaves :
      (owners : Option (List Text)) (offset : ℕ) → Leaves stored (sync_page o jettons owners offset)
  unfolding sync_page
  sync_page-Leaves owners offset =
      bind-Leaves stored (jettons (sync_limit + 1) offset owners) _ (store.asks _ _ _) (λ wallets.
        bind-Leaves stored (for_each (take sync_limit wallets) (sync_wallet o jettons)) _
          (for_each-Leaves stored (take sync_limit wallets) (sync_wallet o jettons)
            sync_wallet-Leaves)
          (λ _.
            bind-Leaves stored (o.timer.sleep 1000) (λ _. pure (ltb sync_limit (length wallets)))
              (store.sleeps 1000) (λ _. pure-Leaves stored (ltb sync_limit (length wallets)))))

  sync_rounds-page :
      (fuel : ℕ) (owners : Option (List Text)) (offset : ℕ) (w : W) {r : Result W Bool}
      → sync_page o jettons owners offset w ≡ r
      → sync_rounds o jettons (suc fuel) owners offset w ≡ elim r [
        | thrown e v ↦ ok true v
        | ok true v ↦ sync_rounds o jettons fuel owners (offset + sync_limit) v
        | ok false v ↦ ok true v
      ]
  unfolding sync_rounds
  sync_rounds-page fuel owners offset w e = rw (e, sync_rounds)

  pub sync_rounds-Leaves :
      (fuel : ℕ) (owners : Option (List Text)) (offset : ℕ)
      → Leaves stored (sync_rounds o jettons fuel owners offset)
  unfolding sync_rounds
  sync_rounds-Leaves zero owners offset = λ w. refl
  sync_rounds-Leaves (suc fuel) owners offset = λ w.
      elim (Result-cases (sync_page o jettons owners offset w)) [
        | inl (true, v, e) ↦
            ap (λ r. stored (end_of r)) (sync_rounds-page fuel owners offset w e)
            ∙ sync_rounds-Leaves fuel owners (offset + sync_limit) v
            ∙ ap (λ r. stored (end_of r)) (sym e)
            ∙ sync_page-Leaves owners offset w
        | inl (false, v, e) ↦
            ap (λ r. stored (end_of r)) (sync_rounds-page fuel owners offset w e)
            ∙ ap (λ r. stored (end_of r)) (sym e)
            ∙ sync_page-Leaves owners offset w
        | inr (x, v, e) ↦
            ap (λ r. stored (end_of r)) (sync_rounds-page fuel owners offset w e)
            ∙ ap (λ r. stored (end_of r)) (sym e)
            ∙ sync_page-Leaves owners offset w
      ]

  or_throw-Leaves : {A : Type 0} (a : Option A) → Leaves stored (or_throw a)
  or_throw-Leaves none = λ w. refl
  or_throw-Leaves (some a) = λ w. refl

  send_message-Leaves :
      (p : TransactionParsed) (wallet : Wallet)
      → Leaves stored (send_message o cells jettons client p wallet)
  unfolding send_message send_email_transaction
  send_message-Leaves p wallet =
      bind-Leaves stored (or_throw (o.library.ton_friendly wallet.wallet_address)) _
        (or_throw-Leaves _) (λ friendly. catch-Leaves stored (o.mailer.send _) tt (store.sends _))

  notify_wallet-Leaves :
      (p : TransactionParsed) (wallet : Option Wallet)
      → Leaves stored (notify_wallet o cells jettons client p wallet)
  unfolding notify_wallet
  notify_wallet-Leaves p none = λ w. refl
  notify_wallet-Leaves p (some wallet) =
      bind-Leaves stored (o.notifications.create (new_notification o cells jettons client p wallet))
        _ (store.notifies _)
        (λ _.
          when-Leaves stored wallet.enabled_noti (send_message o cells jettons client p wallet)
            (send_message-Leaves p wallet))

  pub notify_owner-Leaves :
      (p : TransactionParsed) → Leaves stored (notify_owner o cells jettons client p)
  unfolding notify_owner find_by_wallet_address
  notify_owner-Leaves p = λ w. elim (Bool-cases (is_transfer p.type)) [
    | inl moved ↦ rw moved refl
    | inr other ↦ rw other (
        bind-Leaves stored (find_by_wallet_address o p.from_address)
          (notify_wallet o cells jettons client p) (store.finds _) (notify_wallet-Leaves p) w)
  ]
