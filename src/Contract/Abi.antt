-- ===== src/Contract/Abi.antt =====
-- The shape of a contract's ABI, as web3 takes it; src/utils/constant/web3.ts is one.
use vnst_be.Base.{Bool, Option, none, some, List, [], ◌∷◌, Text, txt, text_eq, if◌then◌else◌}

-- The types that occur in `type`.
pub data AbiType : Type 0 where
  address_type addresses_type bool_type bytes_type bytes4_type bytes32_type : AbiType
  string_type uint8_type uint256_type : AbiType

abbrev pub type_text : AbiType → Text
type_text address_type = txt "address"
type_text addresses_type = txt "address[]"
type_text bool_type = txt "bool"
type_text bytes_type = txt "bytes"
type_text bytes4_type = txt "bytes4"
type_text bytes32_type = txt "bytes32"
type_text string_type = txt "string"
type_text uint8_type = txt "uint8"
type_text uint256_type = txt "uint256"

-- An entry of `inputs` or `outputs`; `indexed` belongs to the inputs of an event.
pub record AbiParameter : Type 0 where
  pub indexed : Option Bool
  pub internal_type : Text
  pub name : Text
  pub type : AbiType

pub data Mutability : Type 0 where
  view_state pure_state nonpayable payable : Mutability

-- An entry of the ABI, by its `type`: an event has `anonymous`, `inputs` and `name`, a function
-- `inputs`, `name`, `outputs` and `stateMutability`.
pub data AbiItem : Type 0 where
  abi_event : Bool → List AbiParameter → Text → AbiItem
  abi_function : List AbiParameter → Text → List AbiParameter → Mutability → AbiItem

-- Most entries have the same text in `internalType` and in `type`.
abbrev pub argument : Text → AbiType → AbiParameter
argument name type = record {
  indexed = none;
  internal_type = type_text type;
  name = name;
  type = type;
}

abbrev pub event_argument : Bool → Text → AbiType → AbiParameter
event_argument indexed name type = record {
  indexed = some indexed;
  internal_type = type_text type;
  name = name;
  type = type;
}

-- The inputs of the event with a name.
unfoldable pub event_inputs : Text → List AbiItem → Option (List AbiParameter)
event_inputs event [] = none
event_inputs event (abi_event anonymous inputs name ∷ items) =
    if text_eq name event then some inputs else event_inputs event items
event_inputs event (abi_function inputs name outputs mutability ∷ items) = event_inputs event items
