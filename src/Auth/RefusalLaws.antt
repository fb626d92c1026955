-- ===== src/Auth/RefusalLaws.antt =====
-- On the refusals of `loginEVM`, src/modules/auth/auth.service.ts.
use vnst_be.Base.{
  ◌≡◌, ◌⊎◌, refl, inl, inr, Option, none, some, Text, txt, to_lower_case, Exception, ok, thrown,
  Option-cases, Bool-cases, arith,
}
use vnst_be.Schema.Chains.{bnb}
use vnst_be.Schema.Wallet.{Wallet}
use vnst_be.External.Infra.{Outside}
use vnst_be.Wallets.Service.{get_wallet_detail}
use vnst_be.Http.{get_status_code}
use vnst_be.Auth.Service.{
  AuthDto, Claims, wallet_claims, Jwt, Ethers, unauthorized, verify_signature, generate_token,
  check_signature, login_found, login_evm,
}

module _ {W : Type 0} (o : Outside W) (jwt : Jwt W) (ethers : Ethers) where
  -- The check changes nothing, and what it throws has the status 401.
  check_signature-cases :
      (address : Text) (nonce : Option Text) (signature : Text) (w : W)
      → (check_signature o jwt ethers address nonce signature w ≡ ok tt w)
        ⊎ (check_signature o jwt ethers address nonce signature w
            ≡ thrown (unauthorized (txt "Signature is invalid")) w)
  unfolding check_signature
  check_signature-cases address nonce signature w =
      elim (Option-cases (verify_signature ethers address nonce signature)) [
        | inl failed ↦ inr (rw failed refl)
        | inr (valid, e) ↦ elim (Bool-cases valid) [
          | inl good ↦ inl (rw (e, good) refl)
          | inr bad ↦ inr (rw (e, bad) refl)
        ]
      ]

  -- If the wallet can be looked up and tokens can be signed, then a login with an EVM wallet that
  -- fails is answered with the status 401, and nothing is changed after the lookup.
  pub login_evm-refused :
      (dto : AuthDto) (found : Option Wallet) (w u : W) (e : Exception) (v : W)
      → get_wallet_detail o (to_lower_case dto.wallet_address) bnb w ≡ ok found u
      → ((claims : Claims) (w : W) → (t : Text) × (w' : W) × (jwt.sign claims none w ≡ ok t w'))
      → login_evm o jwt ethers dto w ≡ thrown e v
      → (get_status_code e ≡ 401) × (v ≡ u)
  unfolding login_evm login_found generate_token get_status_code
  login_evm-refused dto none w u e v look signs h =
      let run : thrown (unauthorized (txt "Wallet not found!")) u ≡ thrown e v = rw look at h in
      ground (arith, run)
  login_evm-refused dto (some wallet) w u e v look signs h =
      let run : login_found o jwt ethers dto (some wallet) u ≡ thrown e v = rw look at h in
      elim (check_signature-cases dto.wallet_address wallet.nonce dto.signature u) [
        | inr refused ↦
            let ends : thrown (unauthorized (txt "Signature is invalid")) u ≡ thrown e v =
              rw refused at run in
            ground (arith, ends)
        | inl passed ↦
            let claims =
              wallet_claims
                (record { id = wallet.id; wallet_address = dto.wallet_address; network = bnb }) in
            let (t, w', signed) = signs claims u in absurd (ground (arith, run, passed, signed))
      ]
