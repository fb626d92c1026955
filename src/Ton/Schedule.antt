-- ===== src/Ton/Schedule.antt =====
-- src/modules/ton/ton.schedule.ts: `syncBalances`. The HTTP client of toncenter is a parameter; it
-- gives the owner of each jetton wallet.
use vnst_be.Base.{
  ℕ, zero, suc, ◌+◌, Bool, true, false, Option, none, some, List, Text, ltb, length, take,
  to_lower_case, Io, ok, thrown, pure, ◌>>=◌, ◌>>◌, for_each,
}
use vnst_be.Schema.Chains.{ton}
use vnst_be.Schema.Amount.{Amount, format_units}
use vnst_be.Schema.Wallet.{Wallet}
use vnst_be.External.Infra.{Outside}
use vnst_be.Wallets.Service.{find_by_wallet_address, create}

-- An entry of `jetton_wallets`: base units and owner, who may be missing (`wallet.owner?.`).
pub record JettonWallet : Type 0 where
  pub balance : ℕ
  pub owner : Option Text

-- GET /v3/jetton/wallets for the contract: limit, offset, owners.
abbrev pub JettonClient : Type 0 → Type 0
JettonClient W = ℕ → ℕ → Option (List Text) → Io W (List JettonWallet)

abbrev pub sync_limit : ℕ
sync_limit = 100

module _ {W : Type 0} (o : Outside W) (client : JettonClient W) where
  -- `findByWalletAddress(owner)`. Without an owner the filter is `{ walletAddress: undefined }`, here
  -- the one with no field; what that finds is up to the collection.
  unfoldable pub find_owner : Option Text → Io W (Option Wallet)
  find_owner (some owner) = find_by_wallet_address o owner
  find_owner none =
      o.wallets.find_one (record { wallet_address = none; network = none; email = none })

  unfoldable pub store_balance : Option Text → Amount → Option Wallet → Io W (Unit {0})
  store_balance owner balance (some wallet) = do
    o.wallets.save (record wallet { balance = balance })
    pure tt
  store_balance owner balance none = do
    create o (record {
      wallet_address = owner;
      email = none;
      enabled_noti = none;
      nonce = none;
      network = ton;
      balance = some balance;
    })
    pure tt

  -- `wallet.owner?.toLowerCase()`
  unfoldable pub owner_of : JettonWallet → Option Text
  owner_of jetton = elim jetton.owner [ none ↦ none | some owner ↦ some (to_lower_case owner) ]

  -- The body of the inner loop.
  unfoldable pub sync_wallet : JettonWallet → Io W (Unit {0})
  sync_wallet jetton = do
    existing ← find_owner (owner_of jetton)
    store_balance (owner_of jetton) (format_units jetton.balance 6) existing

  -- The body of the `try`; the value is `hasMore`.
  unfoldable pub sync_page : Option (List Text) → ℕ → Io W Bool
  sync_page owners offset = do
    wallets ← client (sync_limit + 1) offset owners
    for_each (take sync_limit wallets) sync_wallet
    o.timer.sleep 1000
    pure (ltb sync_limit (length wallets))

  -- The outer loop on fuel; `false` means that the fuel has run out. An exception breaks the loop.
  unfoldable pub sync_rounds : ℕ → Option (List Text) → ℕ → Io W Bool
  sync_rounds zero owners offset w = ok false w
  sync_rounds (suc fuel) owners offset w = elim (sync_page owners offset w) [
    | thrown e v ↦ ok true v
    | ok true v ↦ sync_rounds fuel owners (offset + sync_limit) v
    | ok false v ↦ ok true v
  ]

  unfoldable pub sync_balances : ℕ → Option (List Text) → Io W Bool
  sync_balances fuel owners = sync_rounds fuel owners 0
