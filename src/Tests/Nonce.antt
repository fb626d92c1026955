-- ===== src/Tests/Nonce.antt =====
-- A nonce that is signed with the key of 0xA.
use vnst_be.Base.{
  ◌≢◌, Exception, thrown, ◌≡◌, refl, inl, inr, Bool-cases, Option, none, some, Text, txt, text_eq,
  text_eq_refl, to_lower_case, if◌then◌else◌, ok, [],
}
use vnst_be.Schema.Wallet.{Wallet}
use vnst_be.External.Infra.{Outside}
use vnst_be.Schema.Chains.{bnb}
use vnst_be.Wallets.Service.{by_address_and_network, get_nonce}
use vnst_be.Http.{get_status_code}
use vnst_be.Auth.Service.{Session}
use vnst_be.Auth.Controller.{keep_token, nonce, login, with_cookie}
use vnst_be.Auth.NonceLaws.{IsNonceStore, nonce-login}
use vnst_be.Auth.ReplayLaws.{nonce-login_refused, login-login}
use vnst_be.Tests.World.{World, world, wallet_a, outside}
use vnst_be.Tests.Auth.{open_jwt, open_jwt-IsSigner, decode, ethers}

abbrev text_or_empty : Option Text → Text
text_or_empty none = []
text_or_empty (some t) = t

abbrev upserting : Outside World
upserting = record outside {
  wallets = record outside.wallets {
    find_one_and_update = λ f u b w. ok tt (record w {
      wallet = some (record wallet_a {
        wallet_address = text_or_empty f.wallet_address;
        nonce = some u.nonce;
      });
    });
  };
}

abbrev nonce_in : Text → Option Wallet → Option Text
nonce_in address none = none
nonce_in address (some wallet) =
    if text_eq address wallet.wallet_address then wallet.nonce else none

abbrev nonce_of : Text → World → Option Text
nonce_of address w = nonce_in address w.wallet

found_with :
    (address n : Text) (stored : Option Wallet) (w : World)
    → w.wallet ≡ stored
    → nonce_in address stored ≡ some n
    → (wallet : Wallet) × (v : World) × (upserting.wallets.find_one
          (by_address_and_network address bnb)
          w
        ≡ ok (some wallet) v)
      × (wallet.nonce ≡ some n)
      × (nonce_of address v ≡ some n)
found_with address n none w e h = absurd cc
found_with address n (some wallet) w e h =
    elim (Bool-cases (text_eq address wallet.wallet_address)) [
      | inl same ↦ (wallet, w, rw (e, same) refl, rw same at h, rw (e, same) (rw same at h))
      | inr other ↦ let bad : none ≡ some n = rw other at h in absurd cc
    ]

upserting-IsNonceStore : IsNonceStore upserting nonce_of
upserting-IsNonceStore = record {
  draws = λ w. (txt "uuid", w, refl);
  upserts = λ address n w. (_, refl, rw (text_eq_refl address) refl);
  finds = λ address n w h. found_with address n w.wallet w refl h;
  reads = λ key w. (w.cached, w, refl);
  reads_only = λ address key w. refl;
  caches = λ address key value ttl w. refl;
  asks = λ address other w. refl;
}

lowered : txt "0xa" ≡ to_lower_case (txt "0xA")
unfolding to_lower_case
lowered = refl

nonce-login_example :
    (n : Text) × (u : World) × (session : Session) × (v : World) × (nonce upserting open_jwt
        (txt "0xa")
        world
      ≡ ok (record { body = n; cookie = keep_token }) u)
    × (login upserting open_jwt ethers (record { wallet_address = txt "0xa"; signature = n }) u
        ≡ ok (with_cookie session) v)
    × (session.wallet.nonce ≡ some n)
nonce-login_example =
    nonce-login upserting open_jwt ethers decode upserting-IsNonceStore open_jwt-IsSigner (λ n. n)
      (txt "0xa") (txt "0xA") (λ n. rw (text_eq_refl n) refl) lowered world

abbrev asked : World
asked = record world {
  wallet = some (record wallet_a { wallet_address = txt "0xa"; nonce = some (txt "uuid") });
}

answered :
    nonce upserting open_jwt (txt "0xa") world
    ≡ ok (record { body = txt "uuid"; cookie = keep_token }) asked
unfolding nonce get_nonce
answered = refl

-- The signature of the nonce "n", which the wallet had before.
not_signed :
    (a : Text)
    → ethers.verify_message (ethers.hash_message (txt "uuid")) (txt "n") ≡ some a
    → txt "0xa" ≢ to_lower_case a
unfolding text_eq
not_signed a e = absurd cc

lower : to_lower_case (txt "0xa") ≡ txt "0xa"
unfolding to_lower_case
lower = refl

nonce-login_refused_example :
    (e : Exception) × (v : World) × (login upserting open_jwt ethers
        (record { wallet_address = txt "0xa"; signature = txt "n" })
        asked
      ≡ thrown e v)
    × (get_status_code e ≡ 401)
nonce-login_refused_example =
    nonce-login_refused upserting open_jwt ethers upserting-IsNonceStore (txt "0xa") (txt "n")
      (txt "uuid") world asked answered lower not_signed

own : ethers.verify_message (ethers.hash_message (txt "n")) (txt "n") ≡ some (txt "0xA")
own = rw (text_eq_refl (txt "n")) refl

held : nonce_of (txt "0xa") world ≡ some (txt "n")
unfolding text_eq
held = refl

login-login_example :
    let request =
      login upserting open_jwt ethers
        (record { wallet_address = txt "0xa"; signature = txt "n" }) in
    (session : Session) × (v : World) × (again : Session) × (x : World) × (request world
      ≡ ok (with_cookie session) v)
    × (request v ≡ ok (with_cookie again) x)
login-login_example =
    login-login upserting open_jwt ethers decode upserting-IsNonceStore open_jwt-IsSigner
      (λ address claims w. refl) (txt "0xa") (txt "n") (txt "n") (txt "0xA") world own lowered held
