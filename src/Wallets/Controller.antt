-- ===== src/Wallets/Controller.antt =====
-- src/modules/wallets/wallets.controller.ts. The guard has put the token's payload into `req.user`.
use vnst_be.Base.{
  Bool, true, Option, none, some, Text, txt, Exception, http_exception, Io, pure, throw, ◌>>=◌,
  ◌>>◌,
}
use vnst_be.Schema.Chains.{Network}
use vnst_be.Schema.Wallet.{Wallet}
use vnst_be.External.Infra.{Outside}
use vnst_be.Wallets.Service.{
  UpdateWallet, UpdateEmail, get_wallet_detail, update, find_by_wallet_address, verify_email,
  update_email, scan_balance,
}

-- `req.user`: the payload that a token was signed with.
pub record TokenPayload : Type 0 where
  pub id : Text
  pub wallet_address : Text
  pub network : Network

abbrev pub wallet_not_found : Exception
wallet_not_found = http_exception 404 (txt "wallet not found")

module _ {W : Type 0} (o : Outside W) (user : TokenPayload) where
  unfoldable pub get_me : Io W (Option Wallet)
  get_me = get_wallet_detail o user.wallet_address user.network

  unfoldable pub update_me : UpdateWallet → Io W (Option Wallet)
  update_me body = update o user.wallet_address body

  abbrev pub require_wallet : {A : Type 0} → Option Wallet → (Wallet → Io W A) → Io W A
  require_wallet none f = throw wallet_not_found
  require_wallet (some wallet) f = f wallet

  -- POST /wallets/verify-email; `true` is `{ success: true }`.
  unfoldable pub post_verify_email : Text → Io W Bool
  post_verify_email email = do
    found ← find_by_wallet_address o user.wallet_address
    require_wallet found λ wallet. do verify_email o wallet email; pure true

  -- PUT /wallets/update-email
  unfoldable pub put_update_email : UpdateEmail → Io W Wallet
  put_update_email dto = do
    found ← find_by_wallet_address o user.wallet_address
    require_wallet found λ wallet. update_email o wallet dto

  -- GET /wallets/scan-balance
  unfoldable pub get_scan_balance : Io W Text
  get_scan_balance = scan_balance o
