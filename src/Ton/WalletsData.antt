-- ===== src/Ton/WalletsData.antt =====
-- src/modules/ton/wrappers/wallets-data.ts. The code cell of each wallet contract, which the TON
-- library computes, is a parameter.
use vnst_be.Base.{ℕ, Option, none, some, List, [], ◌∷◌, if◌then◌else◌}
use vnst_be.Ton.Cells.{Cells}

pub record StateInit (Cell : Type 0) : Type 0 where
  pub code : Option Cell
  pub data_cell : Option Cell

pub data WalletVersion : Type 0 where
  v1r1 v1r2 v1r3 v2r1 v2r2 v3r1 v3r2 v4r1 v4r2 v5r1 : WalletVersion

abbrev pub known_wallets : List WalletVersion
known_wallets = v1r1 ∷ v1r2 ∷ v1r3 ∷ v2r1 ∷ v2r2 ∷ v3r1 ∷ v3r2 ∷ v4r1 ∷ v4r2 ∷ v5r1 ∷ []

infixl 5 ◌>>=◌
abbrev pub ◌>>=◌ : {A B : Type 0} → Option A → (A → Option B) → Option B
none >>= k = none
some a >>= k = k a

module _ {Cell Slice : Type 0} (cells : Cells Cell Slice) where
  open cells use {load_uint, load_buffer, load_bit, load_maybe_ref}

  -- `loadWalletV1Data` and `loadWalletV2Data` read alike: seqno, publicKey.
  unfoldable pub load_wallet_v1_data : Slice → Option (List ℕ)
  load_wallet_v1_data cs = do
    (seqno, s1) ← load_uint 32 cs
    (public_key, s2) ← load_buffer 32 s1
    some public_key

  -- seqno, walletId, publicKey
  unfoldable pub load_wallet_v3_data : Slice → Option (List ℕ)
  load_wallet_v3_data cs = do
    (seqno, s1) ← load_uint 32 cs
    (wallet_id, s2) ← load_uint 32 s1
    (public_key, s3) ← load_buffer 32 s2
    some public_key

  -- seqno, walletId, publicKey, plugins
  unfoldable pub load_wallet_v4_data : Slice → Option (List ℕ)
  load_wallet_v4_data cs = do
    (seqno, s1) ← load_uint 32 cs
    (wallet_id, s2) ← load_uint 32 s1
    (public_key, s3) ← load_buffer 32 s2
    (plugins, s4) ← load_maybe_ref s3
    some public_key

  -- signatureAllowed, seqno, walletId, publicKey, plugins
  unfoldable pub load_wallet_v5_data : Slice → Option (List ℕ)
  load_wallet_v5_data cs = do
    (signature_allowed, s0) ← load_bit cs
    (seqno, s1) ← load_uint 32 s0
    (wallet_id, s2) ← load_uint 32 s1
    (public_key, s3) ← load_buffer 32 s2
    (plugins, s4) ← load_maybe_ref s3
    some public_key

  unfoldable pub load_data : WalletVersion → Slice → Option (List ℕ)
  load_data v1r1 cs = load_wallet_v1_data cs
  load_data v1r2 cs = load_wallet_v1_data cs
  load_data v1r3 cs = load_wallet_v1_data cs
  load_data v2r1 cs = load_wallet_v1_data cs
  load_data v2r2 cs = load_wallet_v1_data cs
  load_data v3r1 cs = load_wallet_v3_data cs
  load_data v3r2 cs = load_wallet_v3_data cs
  load_data v4r1 cs = load_wallet_v4_data cs
  load_data v4r2 cs = load_wallet_v4_data cs
  load_data v5r1 cs = load_wallet_v5_data cs

  -- The loop of `tryParsePublicKey`: a wallet whose code differs, or whose data does not parse, is
  -- passed over.
  unfoldable pub first_key :
      (WalletVersion → Cell) → Cell → Cell → List WalletVersion → Option (List ℕ)
  first_key init_code code data_cell [] = none
  first_key init_code code data_cell (v ∷ vs) =
      let rest = first_key init_code code data_cell vs in
      if cells.equals (init_code v) code
      then elim (load_data v (cells.begin_parse data_cell)) [ none ↦ rest | some key ↦ some key ]
      else rest

  unfoldable pub parse_public_key :
      (WalletVersion → Cell) → Option Cell → Option Cell → Option (List ℕ)
  parse_public_key init_code none data_cell = none
  parse_public_key init_code (some code) none = none
  parse_public_key init_code (some code) (some data_cell) =
      first_key init_code code data_cell known_wallets

  unfoldable pub try_parse_public_key : (WalletVersion → Cell) → StateInit Cell → Option (List ℕ)
  try_parse_public_key init_code state = parse_public_key init_code state.code state.data_cell
