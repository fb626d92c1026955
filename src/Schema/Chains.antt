-- ===== src/Schema/Chains.antt =====
-- src/utils/constant/chains.ts and src/utils/constant/token.ts.
use vnst_be.Base.{ℕ, ◌≡◌, Bool, true, false, arith, Text, txt}

pub data ChainId : Type 0 where
  bsc eth : ChainId

abbrev pub chain_number : ChainId → ℕ
chain_number bsc = 56
chain_number eth = 1

abbrev pub chain_eq : ChainId → ChainId → Bool
chain_eq bsc bsc = true
chain_eq eth eth = true
chain_eq bsc eth = false
chain_eq eth bsc = false

pub data TonChain : Type 0 where
  mainnet testnet : TonChain

abbrev pub ton_chain_text : TonChain → Text
ton_chain_text mainnet = txt "-239"
ton_chain_text testnet = txt "-3"

pub data Network : Type 0 where
  bnb ton : Network

abbrev pub network_eq : Network → Network → Bool
network_eq bnb bnb = true
network_eq ton ton = true
network_eq bnb ton = false
network_eq ton bnb = false

abbrev pub network_text : Network → Text
network_text bnb = txt "BNB"
network_text ton = txt "TON"

pub data Token : Type 0 where
  vnst usdt : Token

abbrev pub token_text : Token → Text
token_text vnst = txt "vnst"
token_text usdt = txt "usdt"

pub network_eq_sound : (a b : Network) → network_eq a b ≡ true → a ≡ b
network_eq_sound a b h = ground arith
