-- ===== src/Contract/Events.antt =====
-- src/utils/constant/web3.ts: the events. Each list is a part of `VNST_ABI`, named by its first entry.
use vnst_be.Base.{true, false, List, [], ◌∷◌, txt}
use vnst_be.Contract.Abi.{
  AbiItem, abi_event, event_argument, address_type, bytes32_type, uint256_type, uint8_type,
}

abbrev pub events_from_admin_changed : List AbiItem
events_from_admin_changed =
    abi_event false
      (event_argument false (txt "previousAdmin") address_type
        ∷ event_argument false (txt "newAdmin") address_type
        ∷ [])
      (txt "AdminChanged")
    ∷ abi_event false
        (event_argument true (txt "owner") address_type
          ∷ event_argument true (txt "spender") address_type
          ∷ event_argument false (txt "value") uint256_type
          ∷ [])
        (txt "Approval")
    ∷ abi_event false (event_argument true (txt "beacon") address_type ∷ []) (txt "BeaconUpgraded")
    ∷ abi_event false
        (event_argument true (txt "address_mint") address_type
          ∷ event_argument false (txt "amount_in") uint256_type
          ∷ event_argument false (txt "amount_out") uint256_type
          ∷ event_argument false (txt "created_at") uint256_type
          ∷ event_argument false (txt "market_price") uint256_type
          ∷ [])
        (txt "EMint")
    ∷ abi_event false
        (event_argument true (txt "address_withdraw") address_type
          ∷ event_argument false (txt "amount") uint256_type
          ∷ event_argument false (txt "created_at") uint256_type
          ∷ [])
        (txt "EOperationPool")
    ∷ []

abbrev pub events_from_eredeem : List AbiItem
events_from_eredeem =
    abi_event false
      (event_argument true (txt "address_withdraw") address_type
        ∷ event_argument false (txt "amount_in") uint256_type
        ∷ event_argument false (txt "amount_out") uint256_type
        ∷ event_argument false (txt "created_at") uint256_type
        ∷ event_argument false (txt "market_price") uint256_type
        ∷ [])
      (txt "ERedeem")
    ∷ abi_event false (event_argument false (txt "version") uint8_type ∷ []) (txt "Initialized")
    ∷ abi_event false
        (event_argument true (txt "previousOwner") address_type
          ∷ event_argument true (txt "newOwner") address_type
          ∷ [])
        (txt "OwnershipTransferred")
    ∷ abi_event false (event_argument false (txt "account") address_type ∷ []) (txt "Paused")
    ∷ abi_event false
        (event_argument true (txt "role") bytes32_type
          ∷ event_argument true (txt "previousAdminRole") bytes32_type
          ∷ event_argument true (txt "newAdminRole") bytes32_type
          ∷ [])
        (txt "RoleAdminChanged")
    ∷ abi_event false
        (event_argument true (txt "role") bytes32_type
          ∷ event_argument true (txt "account") address_type
          ∷ event_argument true (txt "sender") address_type
          ∷ [])
        (txt "RoleGranted")
    ∷ []

abbrev pub events_from_role_revoked : List AbiItem
events_from_role_revoked =
    abi_event false
      (event_argument true (txt "role") bytes32_type
        ∷ event_argument true (txt "account") address_type
        ∷ event_argument true (txt "sender") address_type
        ∷ [])
      (txt "RoleRevoked")
    ∷ abi_event false
        (event_argument true (txt "from") address_type
          ∷ event_argument true (txt "to") address_type
          ∷ event_argument false (txt "value") uint256_type
          ∷ [])
        (txt "Transfer")
    ∷ abi_event false (event_argument false (txt "account") address_type ∷ []) (txt "Unpaused")
    ∷ abi_event false (event_argument true (txt "implementation") address_type ∷ [])
        (txt "Upgraded")
    ∷ []
