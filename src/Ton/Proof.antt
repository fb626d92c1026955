-- ===== src/Ton/Proof.antt =====
-- src/modules/ton/ton-proof.service.ts: `checkProof`. Timestamps are whole numbers of seconds and not
-- negative. Base64, UTF-8, SHA-256, Ed25519 and the address functions of the TON library are
-- parameters; a function that may throw gives `none`.
use vnst_be.Base.{
  ℕ, ◌+◌, ◌/◌, Bool, false, Option, none, some, List, [], ◌∷◌, ◌++◌, Text, txt, text_eq, any, leb,
  if◌then◌else◌, error, Io, pure, throw, ◌>>=◌, try_catch,
}
use vnst_be.Utils.Retry.{Timer}
use vnst_be.Utils.ParseInt.{Signed}
use vnst_be.Ton.Cells.{Cells}
use vnst_be.Ton.WalletsData.{StateInit, WalletVersion, try_parse_public_key}
use vnst_be.Ton.WalletKey.{key_bytes}
use vnst_be.Ton.Bytes.{write_uint32_be, write_uint32_le, write_uint64_le, from_hex}

-- src/modules/ton/dto/check-proof.dto.ts
pub record Domain : Type 0 where
  pub length_bytes : ℕ
  pub value : Text

pub record Proof : Type 0 where
  pub timestamp : ℕ
  pub domain : Domain
  pub payload : Text
  pub signature : Text
  pub state_init : Text

pub record CheckProof : Type 0 where
  pub address : Text
  pub network : Text
  pub public_key : Text
  pub proof : Proof

pub record TonAddress : Type 0 where
  pub work_chain : Signed
  pub hash : List ℕ

pub record TonCrypto (W Cell : Type 0) : Type 0 where
  pub init_code : WalletVersion → Cell
  -- `loadStateInit(Cell.fromBase64(s).beginParse())`
  pub load_state_init : Text → Option (StateInit Cell)
  -- `tonClient4.getLastBlock()`, its number
  pub last_block : Io W ℕ
  -- `tonClient4.runMethod` of a block with "get_public_key", the number that it answers
  pub get_public_key : ℕ → TonAddress → Io W ℕ
  -- `Address.parse`
  pub parse_address : Text → Option TonAddress
  pub contract_address : Signed → StateInit Cell → TonAddress
  pub address_equals : TonAddress → TonAddress → Bool
  pub from_base64 : Text → List ℕ
  pub utf8 : Text → List ℕ
  pub sha256 : List ℕ → List ℕ
  -- `sign.detached.verify(message, signature, publicKey)`
  pub verify : List ℕ → List ℕ → List ℕ → Option Bool

-- 15 * 60
abbrev pub valid_auth_time : ℕ
valid_auth_time = 900

abbrev pub allowed_domains : List Text
allowed_domains = txt "test.vnst.io" ∷ txt "vnst.io" ∷ txt "localhost:3000" ∷ []

abbrev pub ton_connect_prefix : Text
ton_connect_prefix = txt "ton-connect"

abbrev pub ton_proof_prefix : Text
ton_proof_prefix = txt "ton-proof-item-v2/"

-- `Buffer.equals`.
abbrev pub bytes_eq : List ℕ → List ℕ → Bool
bytes_eq = text_eq

module _ {W : Type 0} where
  -- A library function that throws.
  abbrev pub or_throw : {A : Type 0} → Option A → Io W A
  or_throw none = throw (error (txt "invalid"))
  or_throw (some a) = pure a

  -- `if (!test) return false;`
  abbrev pub unless_false : Bool → Io W Bool → Io W Bool
  unless_false test k = if test then k else pure false

-- TonService.getWalletPublicKey of src/modules/ton/ton.service.ts.
unfoldable pub get_wallet_public_key : {W Cell : Type 0} → TonCrypto W Cell → Text → Io W (List ℕ)
get_wallet_public_key c address = do
  seqno ← c.last_block
  wallet ← or_throw (c.parse_address address)
  number ← c.get_public_key seqno wallet
  pure (key_bytes number)

-- TonService.getAccountInfo; `get_account` is `tonClient4.getAccount` of a block.
unfoldable pub get_account_info :
    {W Cell Account : Type 0}
    → TonCrypto W Cell
    → (ℕ → TonAddress → Io W Account)
    → Text
    → Io W Account
get_account_info c get_account address = do
  seqno ← c.last_block
  wallet ← or_throw (c.parse_address address)
  get_account seqno wallet

module _ {W Cell Slice : Type 0} (timer : Timer W) (cells : Cells Cell Slice)
    (c : TonCrypto W Cell) where
  -- `Buffer.concat([prefix, wc, address, dl, domain, ts, payload])`, from the three written numbers.
  unfoldable pub proof_message : List ℕ → List ℕ → List ℕ → List ℕ → Proof → List ℕ
  proof_message wc hash dl ts proof =
      c.utf8 ton_proof_prefix
      ++ (wc ++ (hash ++ (dl ++ (c.utf8 proof.domain.value ++ (ts ++ c.utf8 proof.payload)))))

  -- What is signed: the hash of 0xffff, "ton-connect" and the message's hash.
  unfoldable pub signed_hash : List ℕ → List ℕ
  signed_hash msg = c.sha256 ((0xff ∷ 0xff ∷ []) ++ (c.utf8 ton_connect_prefix ++ c.sha256 msg))

  -- The end of `checkProof`, from the writes on.
  unfoldable pub verify_proof : TonAddress → List ℕ → Proof → Io W Bool
  verify_proof address public_key proof = do
    wc ← or_throw (write_uint32_be address.work_chain)
    ts ← or_throw (write_uint64_le proof.timestamp)
    dl ← or_throw (write_uint32_le proof.domain.length_bytes)
    or_throw (
        c.verify (signed_hash (proof_message wc address.hash dl ts proof))
          (c.from_base64 proof.signature) public_key)

  -- `now - validAuthTime > timestamp` fails.
  unfoldable pub is_fresh : ℕ → ℕ → Bool
  is_fresh now timestamp = leb now (timestamp + valid_auth_time)

  unfoldable pub public_key_of : StateInit Cell → Text → Io W (List ℕ)
  public_key_of state address = elim (try_parse_public_key cells c.init_code state) [
    | none ↦ get_wallet_public_key c address
    | some key ↦ pure key
  ]

  -- From the clock on.
  unfoldable pub check_time : TonAddress → List ℕ → Proof → Io W Bool
  check_time address public_key proof = do
    ms ← timer.now
    unless_false (is_fresh (ms / 1000) proof.timestamp) (verify_proof address public_key proof)

  -- From the parse of the address on.
  unfoldable pub check_address : StateInit Cell → List ℕ → CheckProof → Io W Bool
  check_address state public_key payload = do
    wanted ← or_throw (c.parse_address payload.address)
    let address = c.contract_address wanted.work_chain state
    unless_false (c.address_equals address wanted) (
        unless_false (any (text_eq payload.proof.domain.value) allowed_domains)
          (check_time address public_key payload.proof))

  -- The body of the `try`.
  unfoldable pub check_steps : CheckProof → Io W Bool
  check_steps payload = do
    state ← or_throw (c.load_state_init payload.proof.state_init)
    public_key ← public_key_of state payload.address
    unless_false (bytes_eq public_key (from_hex payload.public_key))
        (check_address state public_key payload)

  unfoldable pub check_proof : CheckProof → Io W Bool
  check_proof payload = try_catch (check_steps payload) (λ e. pure false)
