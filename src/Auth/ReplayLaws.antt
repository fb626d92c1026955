-- ===== src/Auth/ReplayLaws.antt =====
-- On logging in with a signature that is not of the latest nonce, and with one that was used,
-- src/modules/auth.
use vnst_be.Base.{
  inl, inr, Exception, ◌≢◌, ◌⊎◌, text_eq, Option-cases, Bool-cases, text_eq_iff, false, ◌≡◌, refl,
  sym, ap, ◌∙◌, Option, none, some, Text, txt, to_lower_case, ok, thrown, end_of, Leaves,
}
use vnst_be.External.Infra.{Outside}
use vnst_be.Http.{get_status_code}
use vnst_be.Wallets.Service.{get_nonce}
use vnst_be.Auth.Service.{
  unauthorized, Jwt, Ethers, Session, verify_signature, check_signature, login_found, login_evm,
  Claims,
}
use vnst_be.Auth.Controller.{Response, keep_token, nonce, login, with_cookie}
use vnst_be.Auth.SessionLaws.{IsSigner}
use vnst_be.Auth.NonceLaws.{IsNonceStore, get_wallet_detail-nonce, login-held}

-- The answer to a request for a nonce is the nonce that is held after it.
nonce-held :
    {W : Type 0} (o : Outside W) (jwt : Jwt W) {nonce_of : Text → W → Option Text}
    (store : IsNonceStore o nonce_of) (address n : Text) (w u : W)
    → nonce o jwt address w ≡ ok (record { body = n; cookie = keep_token }) u
    → nonce_of address u ≡ some n
unfolding nonce get_nonce
nonce-held o jwt {nonce_of = nonce_of} store address n w u e =
    let (m, w1, drawn) = store.draws w in
    let (v, upserted, held) = store.upserts address m w1 in
    let run : nonce o jwt address w ≡ ok (record { body = m; cookie = keep_token }) v =
      rw (drawn, upserted) refl in
    let before : Response Text = record { body = m; cookie = keep_token } in
    let after : Response Text = record { body = n; cookie = keep_token } in
    let same : ok before v ≡ ok after u = sym run ∙ e in cc

verify_signature-other :
    (ethers : Ethers) (address n signature : Text)
    → ((a : Text)
        → ethers.verify_message (ethers.hash_message n) signature ≡ some a
        → address ≢ to_lower_case a)
    → (verify_signature ethers address (some n) signature ≡ none)
      ⊎ (verify_signature ethers address (some n) signature ≡ some false)
unfolding verify_signature
verify_signature-other ethers address n signature other =
    elim (Option-cases (ethers.verify_message (ethers.hash_message n) signature)) [
      | inl e ↦ inl (rw (e, verify_signature) refl)
      | inr (a, e) ↦ elim (Bool-cases (text_eq address (to_lower_case a))) [
        | inl same ↦ absurd (other a e ((text_eq_iff address (to_lower_case a)).0 same))
        | inr differ ↦ inr (rw (e, differ, verify_signature) refl)
      ]
    ]

-- If the collection keeps the nonce of an upsert, then after GET /auth/nonce has answered with a nonce
-- for an address, POST /auth/login refuses every signature that is not one of this nonce by the key of
-- the address, such as one of an earlier nonce, with the status 401.
pub nonce-login_refused :
    {W : Type 0} (o : Outside W) (jwt : Jwt W) (ethers : Ethers) {nonce_of : Text → W → Option Text}
    (store : IsNonceStore o nonce_of) (address signature n : Text) (w u : W)
    → nonce o jwt address w ≡ ok (record { body = n; cookie = keep_token }) u
    → to_lower_case address ≡ address
    → ((a : Text)
        → ethers.verify_message (ethers.hash_message n) signature ≡ some a
        → address ≢ to_lower_case a)
    → (e : Exception) × (v : W) × (login o jwt ethers
          (record { wallet_address = address; signature = signature })
          u
        ≡ thrown e v)
      × (get_status_code e ≡ 401)
unfolding login login_evm login_found check_signature get_status_code
nonce-login_refused o jwt ethers store address signature n w u answered lower other =
    let held = nonce-held o jwt store address n w u answered in
    let (wallet, v, found, has, _) = get_wallet_detail-nonce o store address n u held in
    elim (verify_signature-other ethers address n signature other) [
      | inl bad ↦
          (unauthorized (txt "Signature is invalid"), v, rw (lower, found, has, bad) refl, refl)
      | inr bad ↦
          (unauthorized (txt "Signature is invalid"), v, rw (lower, found, has, bad) refl, refl)
    ]

-- If, besides, signing a token leaves the nonces alone, then POST /auth/login with a signature of the
-- nonce that is held opens a session, and the same request opens another one after it: a login does not
-- use its nonce up.
pub login-login :
    {W : Type 0} (o : Outside W) (jwt : Jwt W) (ethers : Ethers) (verify : Text → Option Claims)
    {nonce_of : Text → W → Option Text} (store : IsNonceStore o nonce_of)
    (signer : IsSigner jwt verify)
    (keeps : (address : Text) (claims : Claims) → Leaves (nonce_of address) (jwt.sign claims none))
    (address n signature key_address : Text) (w : W)
    → ethers.verify_message (ethers.hash_message n) signature ≡ some key_address
    → address ≡ to_lower_case key_address
    → nonce_of address w ≡ some n
    → let request =
        login o jwt ethers (record { wallet_address = address; signature = signature }) in
      (session : Session) × (v : W) × (again : Session) × (x : W) × (request w
        ≡ ok (with_cookie session) v)
      × (request v ≡ ok (with_cookie again) x)
login-login o jwt ethers verify {nonce_of = nonce_of} store signer keeps address n signature
      key_address w own lower held =
    let (session, claims, u, v, opened, _, kept, signed) =
      login-held o jwt ethers verify store signer address n signature key_address w own lower
        held in
    let still : nonce_of address v ≡ some n =
      ap (λ r. nonce_of address (end_of r)) (sym signed) ∙ keeps address claims u ∙ kept in
    let (again, _, _, x, reopened, _, _, _) =
      login-held o jwt ethers verify store signer address n signature key_address v own lower
        still in
    (session, v, again, x, opened, reopened)
