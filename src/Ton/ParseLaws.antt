-- ===== src/Ton/ParseLaws.antt =====
-- On `parseTransaction`, src/modules/ton/account-subscription.service.ts.
use vnst_be.Base.{
  ℕ, ◌≡◌, ◌≢◌, ◌⊎◌, inl, inr, refl, true, Option, none, some, decimal, ◌==◌, arith, Bool-cases,
  ==_iff,
}
use vnst_be.Schema.TonTransaction.{TransactionType, mint, redeem, TransactionParsed}
use vnst_be.Ton.Cells.{Cells}
use vnst_be.Ton.WalletsData.{◌>>=◌}
use vnst_be.Ton.Parse.{
  jetton_notify, MessageInfo, internal, Message, Description, generic_vm, Transaction, is_vm,
  created_at, find_message, read_out, Incoming, parsed, parse_out, parse_operation, parse_notify,
  parse_body, parse_message, parse_transaction, vnst_mint, vnst_redeem, jetton_transfer,
  jetton_transfer_internal, usdt_decimals, vnst_decimals, external_in, external_out,
}

bind-eq-some :
    {A B : Type 0} (m : Option A) (k : A → Option B) {b : B}
    → (m >>= k) ≡ some b
    → (a : A) × (m ≡ some a) × (k a ≡ some b)
bind-eq-some none k h = cc
bind-eq-some (some a) k h = (a, refl, h)

created-internal : (info : MessageInfo) → created_at info ≢ none → (t : ℕ) × (info ≡ internal t)
created-internal (internal t) h = (t, refl)
created-internal external_in h = absurd (h refl)
created-internal external_out h = absurd (h refl)

is_vm-generic : (d : Description) → is_vm d ≡ true → d ≡ generic_vm
is_vm-generic d h = ground arith

-- Both amounts have six decimals.
abbrev pub InSixDecimals : TransactionParsed → Type 0
InSixDecimals p = (p.payload.in_amount.decimals ≡ 6) × (p.payload.out_amount.decimals ≡ 6)

module _ {Cell Slice : Type 0} (cells : Cells Cell Slice) (tx : Transaction Cell) where
  -- A record of a transaction: a mint or a redemption that the contract was notified of by an
  -- internal message, with the transaction's own hash and logical time, that message's time, and an
  -- amount paid out other than the amount paid in, both in six decimals.
  pub record IsRecord (p : TransactionParsed) : Type 0 where
    pub type : (p.type ≡ mint) ⊎ (p.type ≡ redeem)
    pub opcode : p.opcode ≡ jetton_notify
    pub hash : p.hash ≡ tx.hash_hex
    pub lt : p.lt ≡ decimal tx.lt
    pub amounts : p.payload.out_amount.units ≢ p.payload.in_amount.units
    pub scaled : InSixDecimals p
    pub description : tx.description ≡ generic_vm
    pub message : (m : Message Cell) × (tx.in_message ≡ some m) × (m.info ≡ internal p.timestamp)

  module _ (m : Message Cell) (timestamp : ℕ) (here : tx.in_message ≡ some m)
      (info : m.info ≡ internal timestamp) (vm : tx.description ≡ generic_vm) where
    parse_out-IsRecord :
        (type : TransactionType) (a b : ℕ) (i : Incoming) (out : Option (Message Cell))
        (p : TransactionParsed)
        → (type ≡ mint) ⊎ (type ≡ redeem)
        → a ≡ 6
        → b ≡ 6
        → i.opcode ≡ jetton_notify
        → i.timestamp ≡ timestamp
        → parse_out cells type a b tx i out ≡ some (some p)
        → IsRecord p
    unfolding parse_out parsed
    parse_out-IsRecord type a b i none p t ka kb c s h = cc
    parse_out-IsRecord type a b i (some out) p t ka kb c s h =
        let ((out_amount, to_address), e, k) = bind-eq-some (read_out cells out) _ h in
        let differ : out_amount ≢ i.jetton_amount = λ q. absurd (ground arith) in
        let same : parsed cells type a b tx i out_amount to_address ≡ p = ground arith in
        rw (← same) (record {
          type = t;
          opcode = c;
          hash = refl;
          lt = refl;
          amounts = differ;
          scaled = (ka, kb);
          description = vm;
          message = (m, here, rw s info);
        })

    parse_operation-IsRecord :
        (i : Incoming) (op : ℕ) (p : TransactionParsed)
        → i.opcode ≡ jetton_notify
        → i.timestamp ≡ timestamp
        → parse_operation cells tx i op ≡ some (some p)
        → IsRecord p
    unfolding parse_operation
    parse_operation-IsRecord i op p c s h = elim (Bool-cases (op == vnst_mint)) [
      | inl is_mint ↦
          let (out, e, k) =
            bind-eq-some (find_message cells jetton_transfer_internal tx.out_messages) _
              (rw is_mint at h) in
          parse_out-IsRecord mint usdt_decimals vnst_decimals i out p (inl refl) refl refl c s k
      | inr not_mint ↦ elim (Bool-cases (op == vnst_redeem)) [
        | inl is_redeem ↦
            let (out, e, k) =
              bind-eq-some (find_message cells jetton_transfer tx.out_messages) _
                (rw (not_mint, is_redeem) at h) in
            parse_out-IsRecord redeem vnst_decimals usdt_decimals i out p (inr refl) refl refl c s k
        | inr neither ↦ absurd (ground arith)
      ]
    ]

    parse_body-IsRecord :
        (p : TransactionParsed) (body : Cell)
        → parse_body cells tx timestamp body ≡ some (some p)
        → IsRecord p
    unfolding parse_body parse_notify
    parse_body-IsRecord p body h =
        let ((opcode, s1), e1, h1) =
          bind-eq-some (cells.load_uint 32 (cells.begin_parse body)) _ h in
        let ((query_id, s2), e2, h2) = bind-eq-some (cells.load_uint 64 s1) _ h1 in
        elim (Bool-cases (opcode == jetton_notify)) [
          | inr other ↦ absurd (ground arith)
          | inl same ↦
              let ((jetton_amount, s3), e3, h3) =
                bind-eq-some (cells.load_coins s2) _ (rw same at h2) in
              let ((forward, s4), e4, h4) = bind-eq-some (cells.load_ref s3) _ h3 in
              let ((from_address, s5), e5, h5) = bind-eq-some (cells.load_address s4) _ h4 in
              let ((op, s6), e6, h6) =
                bind-eq-some (cells.load_uint 32 (cells.begin_parse forward)) _ h5 in
              parse_operation-IsRecord _ op p ((==_iff opcode jetton_notify).0 same) refl h6
        ]

  parse_message-IsRecord :
      (m : Option (Message Cell)) (p : TransactionParsed)
      → tx.in_message ≡ m
      → parse_message cells tx m ≡ some (some p)
      → IsRecord p
  unfolding parse_message
  parse_message-IsRecord none p here h = cc
  parse_message-IsRecord (some m) p here h =
      let (timestamp, info) = created-internal m.info (ground arith) in
      let vm = is_vm-generic tx.description (ground (arith, info)) in
      parse_body-IsRecord m timestamp here info vm p m.body (ground (arith, info, vm))

-- Only mints and redemptions are recorded, and a record is true to its transaction: its type is one
-- of the two, its hash and logical time are the transaction's, its time is that of the internal
-- message that came in, that message was a notification of the contract, the compute phase ran, and
-- the amount paid out differs from the amount paid in, both in six decimals.
pub parse_transaction-IsRecord :
    {Cell Slice : Type 0} (cells : Cells Cell Slice) (tx : Transaction Cell) (p : TransactionParsed)
    → parse_transaction cells tx ≡ some (some p)
    → IsRecord cells tx p
unfolding parse_transaction
parse_transaction-IsRecord cells tx p h = parse_message-IsRecord cells tx tx.in_message p refl h
