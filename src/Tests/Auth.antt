-- ===== src/Tests/Auth.antt =====
-- Logging in.
use vnst_be.Base.{
  ℕ, zero, suc, ◌⊎◌, ap, subst, Option, [], ◌∷◌, ◌++◌, Text, length, take, drop, thrown, Exception,
  ◌≡◌, refl, true, none, some, txt, text_eq, to_lower_case, if◌then◌else◌, ok,
}
use vnst_be.Schema.Chains.{Network, bnb, ton}
use vnst_be.Wallets.Controller.{get_me}
use vnst_be.Auth.Service.{
  Claims, wallet_claims, proof_payload, merchant_key, AuthDto, Jwt, Ethers, Session, login_evm,
  login_found, check_signature, verify_signature, generate_token, login_ton, require, verify_jwt,
  open_session, or_create,
}
use vnst_be.Auth.Controller.{with_cookie, login}
use vnst_be.Auth.Guards.{allowed}
use vnst_be.Auth.Strategy.{jwt_auth_guard}
use vnst_be.Auth.SessionLaws.{IsSigner, cookie_after, user_of, login-get_me}
use vnst_be.Http.{get_status_code}
use vnst_be.Auth.LoginLaws.{IsOwner, login_evm-IsOwner, IsTonOwner, login_ton-IsTonOwner}
use vnst_be.Wallets.Service.{get_wallet_detail, lookup_verified, create}
use vnst_be.External.Env.{load_env}
use vnst_be.External.Infra.{flag}
use vnst_be.Contract.{is_verified}
use vnst_be.Tests.World.{World, world, wallet_a, outside}
use vnst_be.Tests.Ton.{words, crypto, payload, payload_accepted}

abbrev jwt : Jwt World
jwt = record { sign = λ claims expires w. ok (txt "token") w; verify = λ t w. ok 9 w }

-- A signature names its signer and the message.
abbrev pub ethers : Ethers
ethers = record {
  hash_message = λ m. m;
  verify_message = λ m s. if text_eq s m then some (txt "0xA") else none;
}

abbrev dto : AuthDto
dto = record { wallet_address = txt "0xa"; signature = txt "n" }

abbrev session : Session
session = record { access_token = txt "token"; wallet = wallet_a }

abbrev verified_session : Session
verified_session = record {
  access_token = txt "token";
  wallet = record wallet_a { is_verified = true };
}

abbrev verified_world : World
verified_world = record world { cached = some (flag true) }

evm_session : login_evm outside jwt ethers dto world ≡ ok verified_session verified_world
unfolding login_evm login_found check_signature verify_signature generate_token get_wallet_detail
    lookup_verified text_eq to_lower_case is_verified
evm_session = refl

login_evm-IsOwner_example : IsOwner outside jwt ethers dto verified_session
login_evm-IsOwner_example =
    login_evm-IsOwner outside jwt ethers dto world verified_session verified_world evm_session

ton_session : login_ton outside jwt words crypto payload world ≡ ok session world
unfolding login_ton require verify_jwt generate_token get_wallet_detail lookup_verified text_eq
    to_lower_case open_session or_create create load_env
ton_session = rw payload_accepted refl

login_ton-IsTonOwner_example : IsTonOwner outside jwt words crypto payload session world world
login_ton-IsTonOwner_example =
    login_ton-IsTonOwner outside jwt words crypto payload world session world ton_session

-- A token that is its claims.
abbrev network_code : Network → ℕ
network_code bnb = 1
network_code ton = 2

abbrev network_of : ℕ → Network
network_of zero = bnb
network_of (suc n) = ton

abbrev encode : Claims → Text
encode (proof_payload s) = 0 ∷ s
encode (merchant_key s) = 3 ∷ s
encode (wallet_claims user) =
    network_code user.network ∷ length user.id ∷ (user.id ++ user.wallet_address)

abbrev pub decode : Text → Option Claims
decode [] = none
decode (zero ∷ s) = some (proof_payload s)
decode (suc (suc (suc n)) ∷ s) = some (merchant_key s)
decode (suc n ∷ []) = none
decode (suc n ∷ k ∷ s) =
    some
      (wallet_claims (record { id = take k s; wallet_address = drop k s; network = network_of n }))

take-all : (xs ys : Text) → take (length xs) (xs ++ ys) ≡ xs
take-all [] ys = refl
take-all (x ∷ xs) ys = ap (◌∷◌ x) (take-all xs ys)

drop-all : (xs ys : Text) → drop (length xs) (xs ++ ys) ≡ ys
drop-all [] ys = refl
drop-all (x ∷ xs) ys = drop-all xs ys

decode-wallet_claims :
    (i a : Text) (n : Network)
    → decode (network_code n ∷ length i ∷ (i ++ a))
      ≡ some (wallet_claims (record { id = i; wallet_address = a; network = n }))
decode-wallet_claims i a bnb = rw (take-all i a, drop-all i a) refl
decode-wallet_claims i a ton = rw (take-all i a, drop-all i a) refl

decode-encode : (claims : Claims) → decode (encode claims) ≡ some claims
decode-encode (proof_payload s) = refl
decode-encode (merchant_key s) = refl
decode-encode (wallet_claims user) = decode-wallet_claims user.id user.wallet_address user.network

abbrev pub open_jwt : Jwt World
open_jwt = record { sign = λ claims expires w. ok (encode claims) w; verify = λ t w. ok 9 w }

pub open_jwt-IsSigner : IsSigner open_jwt decode
open_jwt-IsSigner = record {
  signs = λ claims w. (encode claims, w, refl);
  verifies = λ claims t w v signed.
      let same : encode claims ≡ t = cc in
      subst (λ x. decode x ≡ some claims) same (decode-encode claims);
}

wallet_found :
    get_wallet_detail outside (to_lower_case dto.wallet_address) bnb world
    ≡ ok (some verified_session.wallet) verified_world
unfolding get_wallet_detail lookup_verified text_eq to_lower_case is_verified
wallet_found = refl

login-get_me_example :
    ((s : Session) × (v : World) × (login outside open_jwt ethers dto world ≡ ok (with_cookie s) v)
      × ((before : Option Text)
          → jwt_auth_guard decode (cookie_after (with_cookie s).cookie before)
            ≡ allowed (wallet_claims (user_of dto s)))
      × (get_me outside (user_of dto s)
          ≡ get_wallet_detail outside (to_lower_case dto.wallet_address) bnb))
    ⊎ ((e : Exception) × (login outside open_jwt ethers dto world ≡ thrown e verified_world)
        × (get_status_code e ≡ 401))
login-get_me_example =
    login-get_me outside open_jwt ethers decode open_jwt-IsSigner dto (some verified_session.wallet)
      world verified_world wallet_found
