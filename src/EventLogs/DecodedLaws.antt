-- ===== src/EventLogs/DecodedLaws.antt =====
-- On the events that web3 decodes with the contract's ABI, src/utils/constant/web3.ts, and what
-- src/modules/event-logs reads of them.
use vnst_be.Base.{
  ℕ, ◌≡◌, refl, ap, ◌∙◌, ◌⊎◌, inl, inr, Bool, true, false, Option, none, some, List, [], ◌∷◌,
  get_elem?, Text, txt, text_eq, text_eq_sound, decimal, digits_before, Bool-cases,
}
use vnst_be.Schema.Chains.{bsc}
use vnst_be.Schema.Amount.{from_wei}
use vnst_be.Schema.Wallet.{Wallet}
use vnst_be.Schema.Notification.{NotificationType}
use vnst_be.Schema.EventLog.{FieldValue, text, bigint, bool}
use vnst_be.External.Infra.{Outside, EventLogWeb3}
use vnst_be.Contract.Abi.{
  AbiType, address_type, addresses_type, bool_type, bytes_type, bytes4_type, bytes32_type,
  string_type, uint8_type, uint256_type, AbiParameter, AbiItem, event_argument, event_inputs,
}
use vnst_be.Contract.VnstAbi.{vnst_abi}
use vnst_be.EventLogs.Parse.{
  mint_event, redeem_event, field, replace_value, to_object, parse_event_log,
}
use vnst_be.EventLogs.Consumer.{event_kind, new_notification}

-- How web3 shows a value of a type. No event of the contract has a list of addresses.
abbrev pub HasType : AbiType → FieldValue → Type 0
HasType address_type v = (t : Text) × (v ≡ text t)
HasType addresses_type v = ⊥
HasType bool_type v = (b : Bool) × (v ≡ bool b)
HasType bytes_type v = (t : Text) × (v ≡ text t)
HasType bytes4_type v = (t : Text) × (v ≡ text t)
HasType bytes32_type v = (t : Text) × (v ≡ text t)
HasType string_type v = (t : Text) × (v ≡ text t)
HasType uint8_type v = (n : ℕ) × (v ≡ bigint n)
HasType uint256_type v = (n : ℕ) × (v ≡ bigint n)

-- web3 decodes an event by its entry in the ABI: `returnValues` has each argument by its position and
-- by its name.
pub record IsDecoded (abi : List AbiItem) (log : EventLogWeb3) : Type 0 where
  pub inputs : List AbiParameter
  pub declared : event_inputs log.event abi ≡ some inputs
  pub values :
      (i : ℕ) (p : AbiParameter)
      → get_elem? inputs i ≡ some p
      → (v : FieldValue) × (field (decimal i) log.return_values ≡ some v)
        × (field p.name log.return_values ≡ some v)
        × HasType p.type v

pub field-to_object :
    (is_ethereum_address : Text → Bool) (key : Text) (fields : List (Text × FieldValue))
    (v : FieldValue)
    → field key fields ≡ some v
    → field key (to_object is_ethereum_address fields) ≡ some (replace_value is_ethereum_address v)
unfolding field to_object
field-to_object is key [] v h = cc
field-to_object is key ((k, x) ∷ fields) v h = elim (Bool-cases (text_eq k key)) [
  | inl same ↦
      rw same (let e : some x ≡ some v = rw same at h in ap (λ y. some (replace_value is y)) cc)
  | inr other ↦ rw other (field-to_object is key fields v (rw other at h))
]

-- The arguments of an event that is notified of.
abbrev pub trade_inputs : Text → List AbiParameter
trade_inputs address =
    event_argument true address address_type
    ∷ event_argument false (txt "amount_in") uint256_type
    ∷ event_argument false (txt "amount_out") uint256_type
    ∷ event_argument false (txt "created_at") uint256_type
    ∷ event_argument false (txt "market_price") uint256_type
    ∷ []

mint_inputs : event_inputs mint_event vnst_abi ≡ some (trade_inputs (txt "address_mint"))
unfolding event_inputs text_eq
mint_inputs = refl

redeem_inputs : event_inputs redeem_event vnst_abi ≡ some (trade_inputs (txt "address_withdraw"))
unfolding event_inputs text_eq
redeem_inputs = refl

event_kind-cases :
    (event : Text) (kind : NotificationType)
    → event_kind event ≡ some kind
    → (event ≡ mint_event) ⊎ (event ≡ redeem_event)
unfolding event_kind
event_kind-cases event kind h = elim (Bool-cases (text_eq event mint_event)) [
  | inl e ↦ inl (text_eq_sound event mint_event e)
  | inr e ↦ elim (Bool-cases (text_eq event redeem_event)) [
    | inl f ↦ inr (text_eq_sound event redeem_event f)
    | inr f ↦ let bad : none ≡ some kind = rw (e, f) at h in cc
  ]
]

event_kind-inputs :
    (event : Text) (kind : NotificationType) (inputs : List AbiParameter)
    → event_kind event ≡ some kind
    → event_inputs event vnst_abi ≡ some inputs
    → (address : Text) × (inputs ≡ trade_inputs address)
event_kind-inputs event kind inputs h d = elim (event_kind-cases event kind h) [
  | inl e ↦ (txt "address_mint", cc (d, ap (λ x. event_inputs x vnst_abi) e, mint_inputs))
  | inr e ↦ (txt "address_withdraw", cc (d, ap (λ x. event_inputs x vnst_abi) e, redeem_inputs))
]

-- The arguments of a mint or a redemption, under both keys.
pub record Trade (fields : List (Text × FieldValue)) : Type 0 where
  pub address : Text
  amount_in : ℕ
  amount_out : ℕ
  created_at : ℕ
  pub owner : field (txt "0") fields ≡ some (text address)
  paid : field (txt "1") fields ≡ some (bigint amount_in)
  paid_named : field (txt "amount_in") fields ≡ some (bigint amount_in)
  received : field (txt "2") fields ≡ some (bigint amount_out)
  received_named : field (txt "amount_out") fields ≡ some (bigint amount_out)
  at_time : field (txt "created_at") fields ≡ some (bigint created_at)

pub decoded-value :
    (log : EventLogWeb3) (decoded : IsDecoded vnst_abi log) (inputs : List AbiParameter)
    → decoded.inputs ≡ inputs
    → (i : ℕ) (p : AbiParameter) → get_elem? inputs i ≡ some p
    → (v : FieldValue) × (field (decimal i) log.return_values ≡ some v)
      × (field p.name log.return_values ≡ some v)
      × HasType p.type v
decoded-value log decoded inputs same i p e = decoded.values i p (ap (λ l. get_elem? l i) same ∙ e)

pub decoded-Trade :
    (log : EventLogWeb3) (kind : NotificationType)
    → IsDecoded vnst_abi log
    → event_kind log.event ≡ some kind
    → Trade log.return_values
unfolding decimal digits_before
decoded-Trade log kind decoded h =
    let (name, same) = event_kind-inputs log.event kind decoded.inputs h decoded.declared in
    let (v0, e0, _, (address, t0)) =
      decoded-value log decoded (trade_inputs name) same 0 (event_argument true name address_type)
        refl in
    let (v1, e1, n1, (amount_in, t1)) =
      decoded-value log decoded (trade_inputs name) same 1
        (event_argument false (txt "amount_in") uint256_type) refl in
    let (v2, e2, n2, (amount_out, t2)) =
      decoded-value log decoded (trade_inputs name) same 2
        (event_argument false (txt "amount_out") uint256_type) refl in
    let (v3, e3, n3, (created_at, t3)) =
      decoded-value log decoded (trade_inputs name) same 3
        (event_argument false (txt "created_at") uint256_type) refl in
    record {
      address = address;
      amount_in = amount_in;
      amount_out = amount_out;
      created_at = created_at;
      owner = e0 ∙ ap some t0;
      paid = e1 ∙ ap some t1;
      paid_named = n1 ∙ ap some t1;
      received = e2 ∙ ap some t2;
      received_named = n2 ∙ ap some t2;
      at_time = n3 ∙ ap some t3;
    }

module _ {W : Type 0} (o : Outside W) (number : Option FieldValue → ℕ) where
  -- What `Number` is applied to is the digits of a decoded number.
  number-to_object :
      (is_ethereum_address : Text → Bool) (fields : List (Text × FieldValue)) (key : Text) (n : ℕ)
      → field key fields ≡ some (bigint n)
      → number (field key (to_object is_ethereum_address fields)) ≡ number (some (text (decimal n)))
  unfolding replace_value
  number-to_object is fields key n e = ap number (field-to_object is key fields (bigint n) e)

  -- If web3 decodes an event by the contract's ABI, then the notification of a stored mint or redemption
  -- has what `Number` makes of the decimal digits of the event's own `amount_in` and `amount_out`, in
  -- units of 18 decimals, and of its `created_at`, although the program reads the amounts by position.
  pub new_notification-decoded :
      (log : EventLogWeb3) (kind : NotificationType) (wallet : Wallet)
      → IsDecoded vnst_abi log
      → event_kind log.event ≡ some kind
      → (amount_in : ℕ) × (amount_out : ℕ) × (created_at : ℕ) × (field
            (txt "amount_in")
            log.return_values
          ≡ some (bigint amount_in))
        × (field (txt "amount_out") log.return_values ≡ some (bigint amount_out))
        × (field (txt "created_at") log.return_values ≡ some (bigint created_at))
        × (new_notification o number
              (parse_event_log o.library.is_ethereum_address log bsc)
              kind
              wallet
            ≡ record {
              wallet = wallet.id;
              metadata = record {
                amount_in = from_wei (number (some (text (decimal amount_in))));
                amount_out = from_wei (number (some (text (decimal amount_out))));
                transaction_hash = log.transaction_hash;
                timestamp = number (some (text (decimal created_at)));
              };
              type = kind;
              read = false;
            })
  unfolding new_notification parse_event_log replace_value
  new_notification-decoded log kind wallet decoded h =
      let trade = decoded-Trade log kind decoded h in
      let is = o.library.is_ethereum_address in
      (
        trade.amount_in,
        trade.amount_out,
        trade.created_at,
        trade.paid_named,
        trade.received_named,
        trade.at_time,
        rw
            (
              number-to_object is log.return_values (txt "1") trade.amount_in trade.paid,
              number-to_object is log.return_values (txt "2") trade.amount_out trade.received,
              number-to_object is log.return_values (txt "created_at") trade.created_at
                  trade.at_time,
            )
            refl,
      )
