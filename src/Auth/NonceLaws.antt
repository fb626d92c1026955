-- ===== src/Auth/NonceLaws.antt =====
-- GET /auth/nonce and the POST /auth/login that follows, src/modules/auth/auth.controller.ts.
use vnst_be.Base.{
  text_eq_iff, false, ◌≡◌, refl, sym, ap, ◌∙◌, Bool, true, Option, none, some, Text, txt, ◌++◌,
  to_lower_case, to_lower_case_idem, ok, thrown, end_of, ℕ, Leaves, pure-Leaves, bind-Leaves,
  catch-Leaves, detach, pure, Result, recover,
}
use vnst_be.Schema.Chains.{bnb}
use vnst_be.Schema.Wallet.{Wallet}
use vnst_be.External.Infra.{Outside, CacheValue, flag}
use vnst_be.Contract
use vnst_be.Wallets.Service.{
  by_address, by_address_and_network, as_flag, lookup_verified, with_verified, get_wallet_detail,
  get_nonce,
}
use vnst_be.Auth.Service.{
  Jwt, Ethers, Session, verify_signature, check_signature, login_found, login_evm, generate_token,
  Claims, wallet_claims,
}
use vnst_be.Auth.Controller.{keep_token, nonce, login, with_cookie}
use vnst_be.Auth.SessionLaws.{IsSigner}

-- The collection of wallets: an upsert of a nonce is found again with its address on BNB, and what a
-- login does before it looks the wallet up leaves the nonces alone.
pub record IsNonceStore {W : Type 0} (o : Outside W) (nonce_of : Text → W → Option Text)
    : Type 0 where
  pub draws : (w : W) → (n : Text) × (v : W) × (o.random.uuid w ≡ ok n v)
  pub upserts :
      (address n : Text) (w : W)
      → (v : W) × (o.wallets.find_one_and_update
            (by_address address)
            (record { nonce = n; network = bnb })
            true
            w
          ≡ ok tt v)
        × (nonce_of address v ≡ some n)
  pub finds :
      (address n : Text) (w : W)
      → nonce_of address w ≡ some n
      → (wallet : Wallet) × (v : W) × (o.wallets.find_one (by_address_and_network address bnb) w
          ≡ ok (some wallet) v)
        × (wallet.nonce ≡ some n)
        × (nonce_of address v ≡ some n)
  pub reads :
      (key : Text) (w : W) → (c : Option CacheValue) × (v : W) × (o.cache.get key w ≡ ok c v)
  pub reads_only : (address key : Text) → Leaves (nonce_of address) (o.cache.get key)
  pub caches :
      (address key : Text) (value : CacheValue) (ttl : Option ℕ)
      → Leaves (nonce_of address) (o.cache.set key value ttl)
  pub asks : (address other : Text) → Leaves (nonce_of address) (o.contract.is_verified other)

module _ {W : Type 0} (o : Outside W) {nonce_of : Text → W → Option Text}
    (store : IsNonceStore o nonce_of) where
  lookup_verified-keeps :
      (address : Text) (cached : Option Bool) (w : W)
      → (b : Option Bool) × (v : W) × (lookup_verified o address bnb cached w ≡ ok b v)
        × (nonce_of address v ≡ nonce_of address w)
  unfolding lookup_verified Contract.is_verified
  lookup_verified-keeps address (some b) w = (some b, w, refl, refl)
  lookup_verified-keeps address none w = go _ (
      bind-Leaves (nonce_of address) (o.contract.is_verified address) _ (store.asks address address)
        (λ verified.
          bind-Leaves (nonce_of address)
            (detach (o.cache.set (txt "vnst-cms:" ++ address) (flag verified) (some 300)))
            (λ _. pure (some verified))
            (catch-Leaves (nonce_of address)
              (o.cache.set (txt "vnst-cms:" ++ address) (flag verified) (some 300)) tt
              (store.caches address _ _ _))
            (λ _. pure-Leaves (nonce_of address) (some verified)))
        w)
    where
      go :
          (r : Result W (Option Bool))
          → nonce_of address (end_of r) ≡ nonce_of address w
          → (b : Option Bool) × (v : W) × (recover r (λ e. pure (some false)) ≡ ok b v)
            × (nonce_of address v ≡ nonce_of address w)
      go (ok b v) same = (b, v, refl, same)
      go (thrown e v) same = (some false, v, refl, same)

  pub get_wallet_detail-nonce :
      (address n : Text) (w : W)
      → nonce_of address w ≡ some n
      → (wallet : Wallet) × (v : W) × (get_wallet_detail o address bnb w ≡ ok (some wallet) v)
        × (wallet.nonce ≡ some n)
        × (nonce_of address v ≡ some n)
  unfolding get_wallet_detail
  get_wallet_detail-nonce address n w h =
      let (cached, w1, read) = store.reads (txt "vnst-cms:" ++ address) w in
      let kept : nonce_of address w1 ≡ some n =
        ap (λ r. nonce_of address (end_of r)) (sym read)
        ∙ store.reads_only address (txt "vnst-cms:" ++ address) w
        ∙ h in
      let (b, w2, verified, same) = lookup_verified-keeps address (as_flag cached) w1 in
      let (wallet, v, found, has, held) = store.finds address n w2 (same ∙ kept) in
      (with_verified b wallet, v, rw (read, verified, found) refl, go b wallet has, held)
    where
      go :
          (b : Option Bool) (wallet : Wallet)
          → wallet.nonce ≡ some n
          → (with_verified b wallet).nonce ≡ some n
      go none wallet e = e
      go (some b) wallet e = e

verify_signature-own :
    (ethers : Ethers) (address n signature key_address : Text)
    → ethers.verify_message (ethers.hash_message n) signature ≡ some key_address
    → address ≡ to_lower_case key_address
    → verify_signature ethers address (some n) signature ≡ some true
unfolding verify_signature
verify_signature-own ethers address n signature key_address signed lower =
    let same = (text_eq_iff address (to_lower_case key_address)).1 lower in
    rw (signed, same, verify_signature) refl

-- A login with a signature of the nonce that is held; `u` is the state before the token is signed.
pub login-held :
    {W : Type 0} (o : Outside W) (jwt : Jwt W) (ethers : Ethers) (verify : Text → Option Claims)
    {nonce_of : Text → W → Option Text} (store : IsNonceStore o nonce_of)
    (signer : IsSigner jwt verify) (address n signature key_address : Text) (w : W)
    → ethers.verify_message (ethers.hash_message n) signature ≡ some key_address
    → address ≡ to_lower_case key_address
    → nonce_of address w ≡ some n
    → (session : Session) × (claims : Claims) × (u : W) × (v : W) × (login o jwt ethers
          (record { wallet_address = address; signature = signature })
          w
        ≡ ok (with_cookie session) v)
      × (session.wallet.nonce ≡ some n)
      × (nonce_of address u ≡ some n)
      × (jwt.sign claims none u ≡ ok session.access_token v)
unfolding login login_evm login_found check_signature generate_token
login-held o jwt ethers verify store signer address n signature key_address w own lower held =
    let same : to_lower_case address ≡ address =
      ap to_lower_case lower ∙ to_lower_case_idem key_address ∙ sym lower in
    let (wallet, u, found, has, kept) = get_wallet_detail-nonce o store address n w held in
    let claims =
      wallet_claims (record { id = wallet.id; wallet_address = address; network = bnb }) in
    let (token, v, signed) = signer.signs claims u in
    let valid = verify_signature-own ethers address n signature key_address own lower in
    (
      record { access_token = token; wallet = wallet },
      claims,
      u,
      v,
      rw (same, found, has, valid, signed) refl,
      has,
      kept,
      signed,
    )

-- If the collection keeps the nonce of an upsert, tokens can be signed, and `sign` makes signatures of
-- the key whose address, in lower case, is `address`, then GET /auth/nonce answers with a
-- nonce, and POST /auth/login with the signature of that nonce opens a session for a wallet that has
-- it, whatever the contract's node or the cache's writes do.
pub nonce-login :
    {W : Type 0} (o : Outside W) (jwt : Jwt W) (ethers : Ethers) (verify : Text → Option Claims)
    {nonce_of : Text → W → Option Text} (store : IsNonceStore o nonce_of)
    (signer : IsSigner jwt verify) (sign : Text → Text) (address key_address : Text)
    → ((n : Text) → ethers.verify_message (ethers.hash_message n) (sign n) ≡ some key_address)
    → address ≡ to_lower_case key_address
    → (w : W)
    → (n : Text) × (u : W) × (session : Session) × (v : W) × (nonce o jwt address w
        ≡ ok (record { body = n; cookie = keep_token }) u)
      × (login o jwt ethers (record { wallet_address = address; signature = sign n }) u
          ≡ ok (with_cookie session) v)
      × (session.wallet.nonce ≡ some n)
unfolding nonce get_nonce
nonce-login o jwt ethers verify store signer sign address key_address signs lower w =
    let (n, w1, drawn) = store.draws w in
    let (u, upserted, held) = store.upserts address n w1 in
    let (session, _, _, v, opened, has, _, _) =
      login-held o jwt ethers verify store signer address n (sign n) key_address u (signs n) lower
        held in
    (n, u, session, v, rw (drawn, upserted) refl, opened, has)
