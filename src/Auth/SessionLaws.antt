-- ===== src/Auth/SessionLaws.antt =====
-- On logging in and the requests that follow, src/modules/auth and src/modules/wallets.
use vnst_be.Base.{
  ◌≡◌, ◌⊎◌, refl, sym, ap, ◌∙◌, inl, inr, Option, none, some, Text, to_lower_case,
  to_lower_case_idem, Exception, ok, thrown, Result-cases,
}
use vnst_be.Schema.Chains.{bnb}
use vnst_be.Schema.Wallet.{Wallet}
use vnst_be.External.Infra.{Outside}
use vnst_be.Http.{get_status_code}
use vnst_be.Wallets.Service.{get_wallet_detail}
use vnst_be.Wallets.Controller.{TokenPayload, get_me}
use vnst_be.Auth.Service.{AuthDto, Claims, wallet_claims, Jwt, Ethers, Session, login_evm}
use vnst_be.Auth.Controller.{Cookie, set_token, clear_token, keep_token, with_cookie, login}
use vnst_be.Auth.Guards.{allowed}
use vnst_be.Auth.Strategy.{jwt_auth_guard}
use vnst_be.Auth.LoginLaws.{IsOwner, login_evm-IsOwner}
use vnst_be.Auth.RefusalLaws.{login_evm-refused}

-- The cookie that a client sends after a response, from the one that it had.
abbrev pub cookie_after : Cookie → Option Text → Option Text
cookie_after (set_token token) before = some token
cookie_after clear_token before = none
cookie_after keep_token before = before

-- Tokens can be signed, and a token is verified as what it was signed with.
pub record IsSigner {W : Type 0} (jwt : Jwt W) (verify : Text → Option Claims) : Type 0 where
  pub signs : (claims : Claims) (w : W) → (t : Text) × (v : W) × (jwt.sign claims none w ≡ ok t v)
  pub verifies :
      (claims : Claims) (t : Text) (w v : W)
      → jwt.sign claims none w ≡ ok t v
      → verify t ≡ some claims

-- The user of a session on BNB.
abbrev pub user_of : AuthDto → Session → TokenPayload
user_of dto session = record {
  id = session.wallet.id;
  wallet_address = dto.wallet_address;
  network = bnb;
}

module _ {W : Type 0} (o : Outside W) (jwt : Jwt W) (ethers : Ethers)
    (verify : Text → Option Claims) (signer : IsSigner jwt verify) where
  -- If the wallet can be looked up, tokens can be signed, and a signed token is verified as what it
  -- was signed with, then POST /auth/login ends in one of two ways. Either it opens a session: the
  -- client's next request passes the guard as the wallet's user, whatever cookie it had, and asks GET
  -- /wallets/me for the wallet that the login looked up. Or it is answered with the status 401, and
  -- nothing is changed after the lookup.
  pub login-get_me :
      (dto : AuthDto) (found : Option Wallet) (w u : W)
      → get_wallet_detail o (to_lower_case dto.wallet_address) bnb w ≡ ok found u
      → ((session : Session) × (v : W) × (login o jwt ethers dto w ≡ ok (with_cookie session) v)
          × ((before : Option Text)
              → jwt_auth_guard verify (cookie_after (with_cookie session).cookie before)
                ≡ allowed (wallet_claims (user_of dto session)))
          × (get_me o (user_of dto session)
              ≡ get_wallet_detail o (to_lower_case dto.wallet_address) bnb))
        ⊎ ((e : Exception) × (login o jwt ethers dto w ≡ thrown e u) × (get_status_code e ≡ 401))
  unfolding login jwt_auth_guard get_me
  login-get_me dto found w u look = elim (Result-cases (login_evm o jwt ethers dto w)) [
    | inl (session, v, e) ↦
        let owner : IsOwner o jwt ethers dto session =
          login_evm-IsOwner o jwt ethers dto w session v e in
        let (w1, w2, issued) = owner.issued in
        let verified = signer.verifies _ session.access_token w1 w2 issued in
        let lower : dto.wallet_address ≡ to_lower_case dto.wallet_address =
          owner.address
          ∙ sym (to_lower_case_idem owner.signer)
          ∙ ap to_lower_case (sym owner.address) in
        inl (
          session,
          v,
          rw e refl,
          λ before. rw verified refl,
          ap (λ a. get_wallet_detail o a bnb) lower,
        )
    | inr (x, v, e) ↦
        let (status, same) = login_evm-refused o jwt ethers dto found w u x v look signer.signs e in
        inr (x, rw (e, same) refl, status)
  ]
