-- ===== src/Auth/LoginLaws.antt =====
-- On `loginEVM` and `loginTon`, src/modules/auth/auth.service.ts.
use vnst_be.Base.{
  subst, sym, ℕ, ◌≡◌, refl, ◌∙◌, inl, inr, Bool, true, false, Option, none, some, Text, text_eq_iff,
  to_lower_case, Exception, ok, bind-eq-ok, Option-cases, Result-cases, Bool-cases, arith, ap,
}
use vnst_be.Schema.Chains.{bnb, ton, ton_chain_text}
use vnst_be.Schema.Wallet.{Wallet}
use vnst_be.External.Infra.{Outside}
use vnst_be.Wallets.Service.{get_wallet_detail}
use vnst_be.Ton.Cells.{Cells}
use vnst_be.Ton.Proof.{CheckProof, TonCrypto, check_proof}
use vnst_be.Ton.ProofLaws.{IsProven, check_proof-IsProven}
use vnst_be.Auth.Service.{
  AuthDto, wallet_claims, Jwt, Ethers, Session, verify_signature, verify_jwt, check_signature,
  generate_token, login_found, login_evm, expected_chain, or_create, open_session, require,
  login_ton,
}

verify_signature-eq-true :
    (e : Ethers) (a : Text) (nonce : Option Text) (signature : Text)
    → verify_signature e a nonce signature ≡ some true
    → (n : Text) × (signer : Text) × (nonce ≡ some n)
      × (e.verify_message (e.hash_message n) signature ≡ some signer)
      × (a ≡ to_lower_case signer)
unfolding verify_signature
verify_signature-eq-true e a none signature h = cc
verify_signature-eq-true e a (some n) signature h =
    elim (Option-cases (e.verify_message (e.hash_message n) signature)) [
      | inl p ↦ absurd (ground arith)
      | inr (signer, p) ↦
          (n, signer, refl, p, (text_eq_iff a (to_lower_case signer)).0 (ground arith))
    ]

module _ {W : Type 0} (o : Outside W) (jwt : Jwt W) where
  -- What stands behind a session of an EVM wallet: a stored wallet, a signature of its nonce by the
  -- address that logs in, and the token of that wallet and address.
  pub record IsOwner (ethers : Ethers) (dto : AuthDto) (session : Session) : Type 0 where
    pub nonce : Text
    pub signer : Text
    pub before : W
    pub after : W
    pub found :
        get_wallet_detail o (to_lower_case dto.wallet_address) bnb before
        ≡ ok (some session.wallet) after
    pub asked : session.wallet.nonce ≡ some nonce
    pub signed : ethers.verify_message (ethers.hash_message nonce) dto.signature ≡ some signer
    pub address : dto.wallet_address ≡ to_lower_case signer
    pub issued :
        (u : W) × (v : W) × (jwt.sign
            (wallet_claims (record {
              id = session.wallet.id;
              wallet_address = dto.wallet_address;
              network = bnb;
            }))
            none
            u
          ≡ ok session.access_token v)

  check_signature-eq-ok :
      (ethers : Ethers) (a : Text) (nonce : Option Text) (signature : Text) (w v : W)
      → check_signature o jwt ethers a nonce signature w ≡ ok tt v
      → verify_signature ethers a nonce signature ≡ some true
  unfolding check_signature
  check_signature-eq-ok ethers a nonce signature w v h =
      elim (Option-cases (verify_signature ethers a nonce signature)) [
        | inl p ↦ absurd (ground arith)
        | inr (b, p) ↦ elim (Bool-cases b) [ inl t ↦ p ∙ ap some t | inr f ↦ absurd (ground arith) ]
      ]

  login_found-IsOwner :
      (ethers : Ethers) (dto : AuthDto) (found : Option Wallet) (w u : W) (session : Session)
      (v : W)
      → get_wallet_detail o (to_lower_case dto.wallet_address) bnb w ≡ ok found u
      → login_found o jwt ethers dto found u ≡ ok session v
      → IsOwner ethers dto session
  unfolding login_found generate_token
  login_found-IsOwner ethers dto none w u session v e h = cc
  login_found-IsOwner ethers dto (some wallet) w u session v e h =
      let (_, w2, e2, h2) =
        bind-eq-ok (check_signature o jwt ethers dto.wallet_address wallet.nonce dto.signature u) _
          h in
      let valid =
        check_signature-eq-ok ethers dto.wallet_address wallet.nonce dto.signature u w2 e2 in
      let (n, signer, asked, signed, address) =
        verify_signature-eq-true ethers dto.wallet_address wallet.nonce dto.signature valid in
      let (token, w3, e3, h3) = bind-eq-ok (jwt.sign _ none w2) _ h2 in
      let same : record { access_token = token; wallet = wallet } ≡ session = ground arith in
      rw (← same) (record {
        nonce = n;
        signer = signer;
        before = w;
        after = u;
        found = e;
        asked = asked;
        signed = signed;
        address = address;
        issued = (w2, w3, e3);
      })

  -- If logging in with an EVM wallet succeeds, then the caller holds the key of the address: the
  -- stored wallet's nonce was signed by it, and the token names that wallet and address on BNB.
  pub login_evm-IsOwner :
      (ethers : Ethers) (dto : AuthDto) (w : W) (session : Session) (v : W)
      → login_evm o jwt ethers dto w ≡ ok session v
      → IsOwner ethers dto session
  unfolding login_evm login_found generate_token
  login_evm-IsOwner ethers dto w session v h =
      let (found, w1, e1, h1) =
        bind-eq-ok (get_wallet_detail o (to_lower_case dto.wallet_address) bnb w) _ h in
      login_found-IsOwner ethers dto found w w1 session v e1 h1

  -- What stands behind a session of a TON wallet: the expected chain, a payload that this server has
  -- signed, an accepted proof, and the token of the wallet that was found or created.
  pub record IsTonOwner {Cell Slice : Type 0} (cells : Cells Cell Slice) (crypto : TonCrypto W Cell)
      (dto : CheckProof) (session : Session) (w v : W) : Type 0 where
    pub chain : dto.network ≡ ton_chain_text (expected_chain o jwt cells crypto)
    pub expiry : ℕ
    pub checked : W
    pub proved : W
    pub looked : W
    pub named : W
    pub found : Option Wallet
    pub payload_signed : jwt.verify dto.proof.payload w ≡ ok expiry checked
    pub proven : IsProven o.timer cells crypto dto checked proved
    pub looked_up : get_wallet_detail o dto.address ton proved ≡ ok found looked
    pub wallet : or_create o jwt cells crypto dto.address found looked ≡ ok session.wallet named
    pub issued :
        jwt.sign
          (wallet_claims (record {
            id = session.wallet.id;
            wallet_address = session.wallet.wallet_address;
            network = ton;
          }))
          none
          named
        ≡ ok session.access_token v

  verify_jwt-eq-ok :
      (token : Text) (w : W) {exp : ℕ} {v : W}
      → verify_jwt o jwt token w ≡ ok exp v
      → jwt.verify token w ≡ ok exp v
  unfolding verify_jwt
  verify_jwt-eq-ok token w h = elim (Result-cases (jwt.verify token w)) [
    | inl (a, u, p) ↦ ground arith
    | inr (e, u, p) ↦ absurd (ground arith)
  ]

  module _ {Cell Slice : Type 0} (cells : Cells Cell Slice) (crypto : TonCrypto W Cell) where
    require-eq-ok :
        (b : Bool) (e : Exception) {w v : W}
        → require o jwt cells crypto b e w ≡ ok tt v
        → (b ≡ true) × (w ≡ v)
    unfolding require
    require-eq-ok true e h = (refl, ground arith)
    require-eq-ok false e h = absurd (ground arith)

    -- If logging in with a TON wallet succeeds, then the network is the configured one; the payload of
    -- the proof is a token that the token service accepts when the login begins; the proof is then
    -- accepted, with its age by the clock of this login; the wallet is the one of the proven address,
    -- found then or created; and the token is the one that is then signed for that wallet. Each of these
    -- runs begins where the one before it ended.
    pub login_ton-IsTonOwner :
        (dto : CheckProof) (w : W) (session : Session) (v : W)
        → login_ton o jwt cells crypto dto w ≡ ok session v
        → IsTonOwner cells crypto dto session w v
    unfolding login_ton open_session generate_token
    login_ton-IsTonOwner dto w session v h =
        let (_, w1, e1, h1) = bind-eq-ok (require o jwt cells crypto _ _ w) _ h in
        let (exp, w2, e2, h2) = bind-eq-ok (verify_jwt o jwt dto.proof.payload w1) _ h1 in
        let (valid, w3, e3, h3) = bind-eq-ok (check_proof o.timer cells crypto dto w2) _ h2 in
        let (_, w4, e4, h4) = bind-eq-ok (require o jwt cells crypto valid _ w3) _ h3 in
        let (found, w5, e5, h5) = bind-eq-ok (get_wallet_detail o dto.address ton w4) _ h4 in
        let (wallet, w6, e6, h6) =
          bind-eq-ok (or_create o jwt cells crypto dto.address found w5) _ h5 in
        let (token, w7, e7, h7) = bind-eq-ok (jwt.sign _ none w6) _ h6 in
        let same : record { access_token = token; wallet = wallet } ≡ session = ground arith in
        let end : w7 ≡ v = ground arith in
        let good : valid ≡ true = (require-eq-ok valid _ e4).0 in
        let proof_done = e3 ∙ ap (λ b. ok b w3) good ∙ ap (ok true) (require-eq-ok valid _ e4).1 in
        rw (← same) (record {
          chain = (text_eq_iff _ _).0 (require-eq-ok _ _ e1).0;
          expiry = exp;
          checked = w2;
          proved = w4;
          looked = w5;
          named = w6;
          found = found;
          payload_signed =
              subst (λ x. jwt.verify dto.proof.payload x ≡ ok exp w2) (sym (require-eq-ok _ _ e1).1)
                (verify_jwt-eq-ok dto.proof.payload w1 e2);
          proven = check_proof-IsProven o.timer cells crypto dto w2 w4 proof_done;
          looked_up = e5;
          wallet = e6;
          issued = e7 ∙ ap (ok token) end;
        })
