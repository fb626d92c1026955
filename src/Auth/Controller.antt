-- ===== src/Auth/Controller.antt =====
-- src/modules/auth/auth.controller.ts. A response is its body and its change of the cookie
-- "access-token".
use vnst_be.Base.{some, Text, txt, Io, pure, ◌>>=◌}
use vnst_be.External.Infra.{Outside}
use vnst_be.Wallets.Service.{get_nonce}
use vnst_be.Ton.Cells.{Cells}
use vnst_be.Ton.Proof.{CheckProof, TonCrypto}
use vnst_be.Auth.Service.{
  AuthDto, proof_payload, Jwt, Ethers, Session, generate_token, login_evm, login_ton,
}

pub data Cookie : Type 0 where
  set_token : Text → Cookie
  clear_token keep_token : Cookie

pub record Response (A : Type 0) : Type 0 where
  pub body : A
  pub cookie : Cookie

-- `httpOnly`, `sameSite: "none"` and `secure` are the same at both places that set the cookie.
abbrev pub with_cookie : Session → Response Session
with_cookie session = record { body = session; cookie = set_token session.access_token }

module _ {W : Type 0} (o : Outside W) (jwt : Jwt W) where
  -- POST /auth/login
  unfoldable pub login : Ethers → AuthDto → Io W (Response Session)
  login ethers body = do session ← login_evm o jwt ethers body; pure (with_cookie session)

  -- POST /auth/logout
  unfoldable pub logout : Io W (Response (Unit {0}))
  logout = pure (record { body = tt; cookie = clear_token })

  -- GET /auth/nonce
  unfoldable pub nonce : Text → Io W (Response Text)
  nonce wallet_address = do
    value ← get_nonce o wallet_address
    pure (record { body = value; cookie = keep_token })

  -- GET /auth/ton/generate-payload; `random_payload` is TonProofService.generatePayload.
  unfoldable pub generate_payload : Io W Text → Io W (Response Text)
  generate_payload random_payload = do
    payload ← random_payload
    token ← generate_token o jwt (proof_payload payload) (some (txt "15m"))
    pure (record { body = token; cookie = keep_token })

  -- POST /auth/ton/login
  unfoldable pub ton_login :
      {Cell Slice : Type 0}
      → Cells Cell Slice
      → TonCrypto W Cell
      → CheckProof
      → Io W (Response Session)
  ton_login cells crypto body = do
    session ← login_ton o jwt cells crypto body
    pure (with_cookie session)
