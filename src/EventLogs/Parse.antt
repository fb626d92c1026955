-- ===== src/EventLogs/Parse.antt =====
-- src/modules/event-logs/event-logs.service.ts: `toObject`, `parseEventLog`, and the addresses of
-- transfers. Numbers that the node leaves out stay `none`
-- (NaN in the program).
use vnst_be.Base.{
  Bool, false, ◌||◌, Option, none, some, List, [], ◌∷◌, Text, decimal, txt, text_eq, option_text_eq,
  to_lower_case, if◌then◌else◌,
}
use vnst_be.Schema.Chains.{ChainId}
use vnst_be.Schema.EventLog.{
  FieldValue, text, bigint, bool, js_number, null, array, FieldValues, no_values, with_value,
  EventLog,
}
use vnst_be.External.Infra.{EventLogWeb3}

-- src/modules/event-logs/event-logs.constant.ts
abbrev pub mint_event : Text
mint_event = txt "EMint"

abbrev pub redeem_event : Text
redeem_event = txt "ERedeem"

abbrev pub transfer_event : Text
transfer_event = txt "Transfer"

abbrev pub cache_last_scan_block_number : Text
cache_last_scan_block_number = txt "last_scan_block_number"

-- A property of `returnValues`.
unfoldable pub field : Text → List (Text × FieldValue) → Option FieldValue
field key [] = none
field key ((k, v) ∷ fields) = if text_eq k key then some v else field key fields

-- The text of a property: an address is one.
abbrev pub field_text : Option FieldValue → Option Text
field_text none = none
field_text (some (text t)) = some t
field_text (some (bigint n)) = none
field_text (some (bool b)) = none
field_text (some (js_number n)) = none
field_text (some null) = none
field_text (some (array vs)) = none

module _ (is_ethereum_address : Text → Bool) where
  -- The replacer of `JSON.stringify`, which is also called for what an array holds.
  unfoldable mutual
    pub replace_value : FieldValue → FieldValue
    replace_value (bigint n) = text (decimal n)
    replace_value (text t) = if is_ethereum_address t then text (to_lower_case t) else text t
    replace_value (bool b) = bool b
    replace_value (js_number n) = js_number n
    replace_value null = null
    replace_value (array vs) = array (replace_values vs)

    pub replace_values : FieldValues → FieldValues
    replace_values no_values = no_values
    replace_values (with_value v vs) = with_value (replace_value v) (replace_values vs)

  unfoldable pub to_object : List (Text × FieldValue) → List (Text × FieldValue)
  to_object [] = []
  to_object ((k, v) ∷ fields) = (k, replace_value v) ∷ to_object fields

  unfoldable pub parse_event_log : EventLogWeb3 → ChainId → EventLog
  parse_event_log log chain_id = record {
    address = log.address;
    raw_data = log.raw_data;
    event = log.event;
    return_values = to_object log.return_values;
    topics = log.topics;
    block_hash = log.block_hash;
    block_number = log.block_number;
    log_index = log.log_index;
    raw = log.raw;
    signature = log.signature;
    transaction_hash = log.transaction_hash;
    transaction_index = log.transaction_index;
    chain_id = chain_id;
  }

-- `addressTransfered` and `result`.
pub record Collected : Type 0 where
  pub addresses : List (Option Text)
  pub result : List EventLog

abbrev pub transfer_addresses : EventLogWeb3 → List (Option Text)
transfer_addresses log =
    if text_eq log.event transfer_event
    then field_text (field (txt "from") log.return_values)
      ∷ field_text (field (txt "to") log.return_values)
      ∷ []
    else []

-- `[...new Set(xs)]`: each value once, at its first place.
unfoldable pub includes : Option Text → List (Option Text) → Bool
includes a [] = false
includes a (x ∷ xs) = option_text_eq x a || includes a xs

unfoldable pub unique_from : List (Option Text) → List (Option Text) → List (Option Text)
unique_from seen [] = []
unique_from seen (x ∷ xs) =
    let fresh = x ∷ unique_from (x ∷ seen) xs in
    let skipped = unique_from seen xs in if includes x seen then skipped else fresh

unfoldable pub unique : List (Option Text) → List (Option Text)
unique xs = unique_from [] xs
