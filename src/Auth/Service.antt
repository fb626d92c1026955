-- ===== src/Auth/Service.antt =====
-- src/modules/auth/auth.service.ts. ethers' message functions and the JWT service are parameters.
use vnst_be.Base.{
  ℕ, Bool, true, false, Option, none, some, Text, txt, text_eq, if◌then◌else◌, to_lower_case,
  Exception, error, Io, pure, throw, ◌>>=◌, ◌>>◌, try_catch, [],
}
use vnst_be.Schema.Chains.{bnb, ton, TonChain, mainnet, testnet, ton_chain_text}
use vnst_be.Http.{un_authorized_exception}
use vnst_be.Schema.Wallet.{Wallet}
use vnst_be.External.Infra.{Outside}
use vnst_be.Wallets.Service.{get_wallet_detail, create}
use vnst_be.Wallets.Controller.{TokenPayload}
use vnst_be.Ton.Cells.{Cells}
use vnst_be.Ton.Proof.{CheckProof, TonCrypto, check_proof, or_throw}

-- src/modules/auth/dto/auth.dto.ts
pub record AuthDto : Type 0 where
  pub wallet_address : Text
  pub signature : Text

-- What is signed into a token: a wallet's claims, the payload of a TON proof, or a merchant's key.
pub data Claims : Type 0 where
  wallet_claims : TokenPayload → Claims
  proof_payload : Text → Claims
  merchant_key : Text → Claims

-- JwtService with the program's secret; `sign` takes the optional `expiresIn`, `verify` gives `exp`.
pub record Jwt (W : Type 0) : Type 0 where
  pub sign : Claims → Option Text → Io W Text
  pub verify : Text → Io W ℕ

-- `hashMessage`, which throws at `undefined`, and `verifyMessage`, the address that signed.
pub record Ethers : Type 0 where
  pub hash_message : Text → Text
  pub verify_message : Text → Text → Option Text

pub record Session : Type 0 where
  pub access_token : Text
  pub wallet : Wallet

abbrev pub unauthorized : Text → Exception
unauthorized = un_authorized_exception

-- `verifySignature`; `none` where it throws.
unfoldable pub verify_signature : Ethers → Text → Option Text → Text → Option Bool
verify_signature e wallet_address none signature = none
verify_signature e wallet_address (some nonce) signature =
    elim (e.verify_message (e.hash_message nonce) signature) [
      | none ↦ none
      | some address ↦ some (text_eq wallet_address (to_lower_case address))
    ]

module _ {W : Type 0} (o : Outside W) (jwt : Jwt W) where
  unfoldable pub generate_token : Claims → Option Text → Io W Text
  generate_token claims expires_in = jwt.sign claims expires_in

  unfoldable pub generate_key_for_merchant : Text → Io W Text
  generate_key_for_merchant props = generate_token (merchant_key props) none

  unfoldable pub verify_jwt : Text → Io W ℕ
  verify_jwt token = try_catch (jwt.verify token) (λ e. throw (unauthorized (txt "Invalid JWT")))

  module _ (ethers : Ethers) where
    -- `if (!isValid) throw new Error()` inside the `try` of `loginEVM`.
    unfoldable pub check_signature : Text → Option Text → Text → Io W (Unit {0})
    check_signature wallet_address nonce signature =
        try_catch
          (or_throw (verify_signature ethers wallet_address nonce signature) >>= λ valid.
            if valid then pure tt else throw (error []))
          (λ e. throw (unauthorized (txt "Signature is invalid")))

    unfoldable pub login_found : AuthDto → Option Wallet → Io W Session
    login_found dto none = throw (unauthorized (txt "Wallet not found!"))
    login_found dto (some wallet) = do
      check_signature dto.wallet_address wallet.nonce dto.signature
      token ←
          generate_token
            (wallet_claims
              (record { id = wallet.id; wallet_address = dto.wallet_address; network = bnb }))
            none
      pure (record { access_token = token; wallet = wallet })

    unfoldable pub login_evm : AuthDto → Io W Session
    login_evm dto = do
      found ← get_wallet_detail o (to_lower_case dto.wallet_address) bnb
      login_found dto found

  module _ {Cell Slice : Type 0} (cells : Cells Cell Slice) (crypto : TonCrypto W Cell) where
    abbrev pub expected_chain : TonChain
    expected_chain = if o.env.is_mainnet then mainnet else testnet

    -- `if (!wallet) wallet = await this.walletsService.create({ walletAddress, network })`.
    unfoldable pub or_create : Text → Option Wallet → Io W Wallet
    or_create address (some wallet) = pure wallet
    or_create address none = create o (record {
      wallet_address = some address;
      email = none;
      enabled_noti = none;
      nonce = none;
      network = ton;
      balance = none;
    })

    -- `loginTon` once the proof is checked.
    unfoldable pub open_session : Text → Io W Session
    open_session address = do
      found ← get_wallet_detail o address ton
      wallet ← or_create address found
      token ←
          generate_token
            (wallet_claims
              (record { id = wallet.id; wallet_address = wallet.wallet_address; network = ton }))
            none
      pure (record { access_token = token; wallet = wallet })

    unfoldable pub require : Bool → Exception → Io W (Unit {0})
    require true e = pure tt
    require false e = throw e

    unfoldable pub login_ton : CheckProof → Io W Session
    login_ton dto = do
      require (text_eq dto.network (ton_chain_text expected_chain))
          (unauthorized (txt "Invalid network"))
      verify_jwt dto.proof.payload
      valid ← check_proof o.timer cells crypto dto
      require valid (unauthorized (txt "Invalid proof"))
      open_session dto.address
