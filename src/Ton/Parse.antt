-- ===== src/Ton/Parse.antt =====
-- src/modules/ton/account-subscription.service.ts: `parseTransaction`. `some none` is the result
-- `undefined`, and `none` an exception, which the cell reader throws.
use vnst_be.Base.{
  ℕ, Bool, true, false, Option, none, some, List, [], ◌∷◌, Text, decimal, ◌==◌, if◌then◌else◌,
}
use vnst_be.Schema.Amount.{format_units}
use vnst_be.Schema.TonTransaction.{TransactionType, mint, redeem, TransactionParsed}
use vnst_be.Ton.Cells.{Cells}
use vnst_be.Ton.WalletsData.{◌>>=◌}

-- src/modules/ton/constants
abbrev pub vnst_decimals : ℕ
vnst_decimals = 6

abbrev pub usdt_decimals : ℕ
usdt_decimals = 6

abbrev pub jetton_notify : ℕ
jetton_notify = 0x7362d09c

abbrev pub jetton_transfer_internal : ℕ
jetton_transfer_internal = 0x178d4519

abbrev pub jetton_transfer : ℕ
jetton_transfer = 0xf8a7ea5

abbrev pub vnst_mint : ℕ
vnst_mint = 0xa3b1f2c4

abbrev pub vnst_redeem : ℕ
vnst_redeem = 0x5f9e8d7a

-- `createdAt` belongs to internal messages.
pub data MessageInfo : Type 0 where
  internal : ℕ → MessageInfo
  external_in external_out : MessageInfo

pub record Message (Cell : Type 0) : Type 0 where
  pub info : MessageInfo
  pub body : Cell

-- The type of a transaction's description, with that of the compute phase of a generic one.
pub data Description : Type 0 where
  generic_vm generic_skipped generic_none other_description : Description

-- `hash_hex` and `hash_base64` are the two forms of `hash()` that the program takes.
pub record Transaction (Cell : Type 0) : Type 0 where
  pub in_message : Option (Message Cell)
  pub description : Description
  pub out_messages : List (Message Cell)
  pub hash_hex : Text
  pub hash_base64 : Text
  pub lt : ℕ

abbrev pub is_vm : Description → Bool
is_vm generic_vm = true
is_vm generic_skipped = false
is_vm generic_none = false
is_vm other_description = false

abbrev pub created_at : MessageInfo → Option ℕ
created_at (internal t) = some t
created_at external_in = none
created_at external_out = none

-- What has been read from the incoming message.
pub record Incoming : Type 0 where
  pub opcode : ℕ
  pub query_id : ℕ
  pub jetton_amount : ℕ
  pub from_address : Text
  pub timestamp : ℕ

module _ {Cell Slice : Type 0} (cells : Cells Cell Slice) where
  open cells use {begin_parse, load_uint, load_coins, load_ref, load_address}

  -- `outMessages.values().find(m => m.body.beginParse().loadUint(32) === op)`.
  unfoldable pub find_message : ℕ → List (Message Cell) → Option (Option (Message Cell))
  find_message op [] = some none
  find_message op (m ∷ ms) = elim (load_uint 32 (begin_parse m.body)) [
    | none ↦ none
    | some (code, rest) ↦ if code == op then some (some m) else find_message op ms
  ]

  -- The amount and the receiver in an outgoing message.
  unfoldable pub read_out : Message Cell → Option (ℕ × Text)
  read_out m = do
    (op, s1) ← load_uint 32 (begin_parse m.body)
    (query, s2) ← load_uint 64 s1
    (out_amount, s3) ← load_coins s2
    (sender, s4) ← load_address s3
    (to_address, s5) ← load_address s4
    some (out_amount, to_address)

  unfoldable pub parsed :
      TransactionType → ℕ → ℕ → Transaction Cell → Incoming → ℕ → Text → TransactionParsed
  parsed type in_decimals out_decimals tx i out_amount to_address = record {
    type = type;
    hash = tx.hash_hex;
    from_address = i.from_address;
    to_address = to_address;
    payload = record {
      in_amount = format_units i.jetton_amount in_decimals;
      out_amount = format_units out_amount out_decimals;
      query_id = i.query_id;
    };
    opcode = i.opcode;
    timestamp = i.timestamp;
    lt = decimal tx.lt;
  }

  -- The two branches, which differ in the outgoing operation and the decimals.
  unfoldable pub parse_out :
      TransactionType
      → ℕ
      → ℕ
      → Transaction Cell
      → Incoming
      → Option (Message Cell)
      → Option (Option TransactionParsed)
  parse_out type in_decimals out_decimals tx i none = some none
  parse_out type in_decimals out_decimals tx i (some m) = do
    (out_amount, to_address) ← read_out m
    some (
        if out_amount == i.jetton_amount
        then none
        else some (parsed type in_decimals out_decimals tx i out_amount to_address))

  unfoldable pub parse_operation :
      Transaction Cell → Incoming → ℕ → Option (Option TransactionParsed)
  parse_operation tx i op =
      if op == vnst_mint
      then find_message jetton_transfer_internal tx.out_messages
        >>= parse_out mint usdt_decimals vnst_decimals tx i
      else if op == vnst_redeem
      then find_message jetton_transfer tx.out_messages
        >>= parse_out redeem vnst_decimals usdt_decimals tx i
      else some none

  -- The branch of a JETTON_NOTIFY, from the slice behind the query id.
  unfoldable pub parse_notify :
      Transaction Cell → ℕ → ℕ → ℕ → Slice → Option (Option TransactionParsed)
  parse_notify tx timestamp opcode query_id s2 = do
    (jetton_amount, s3) ← load_coins s2
    (forward, s4) ← load_ref s3
    (from_address, s5) ← load_address s4
    (op, s6) ← load_uint 32 (begin_parse forward)
    parse_operation tx
        (record {
          opcode = opcode;
          query_id = query_id;
          jetton_amount = jetton_amount;
          from_address = from_address;
          timestamp = timestamp;
        })
        op

  unfoldable pub parse_body : Transaction Cell → ℕ → Cell → Option (Option TransactionParsed)
  parse_body tx timestamp body = do
    (opcode, s1) ← load_uint 32 (begin_parse body)
    (query_id, s2) ← load_uint 64 s1
    if opcode == jetton_notify then parse_notify tx timestamp opcode query_id s2 else some none

  unfoldable pub parse_message :
      Transaction Cell → Option (Message Cell) → Option (Option TransactionParsed)
  parse_message tx none = some none
  parse_message tx (some m) = elim (created_at m.info) [
    | none ↦ some none
    | some timestamp ↦ if is_vm tx.description then parse_body tx timestamp m.body else some none
  ]

  unfoldable pub parse_transaction : Transaction Cell → Option (Option TransactionParsed)
  parse_transaction tx = parse_message tx tx.in_message
