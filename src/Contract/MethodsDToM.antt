-- ===== src/Contract/MethodsDToM.antt =====
-- src/utils/constant/web3.ts: functions DEFAULT_ADMIN_ROLE to max_redeem_limit. Each list is a part of `VNST_ABI`, named by its first entry.
use vnst_be.Base.{List, [], ◌∷◌, txt}
use vnst_be.Contract.Abi.{
  AbiItem, abi_function, argument, address_type, addresses_type, bool_type, bytes32_type,
  uint256_type, uint8_type, nonpayable, view_state,
}

abbrev pub methods_from_default_admin_role : List AbiItem
methods_from_default_admin_role =
    abi_function [] (txt "DEFAULT_ADMIN_ROLE") (argument [] bytes32_type ∷ []) view_state
    ∷ abi_function [] (txt "MODERATOR_ROLE") (argument [] bytes32_type ∷ []) view_state
    ∷ abi_function (argument (txt "mod") address_type ∷ []) (txt "addMod") [] nonpayable
    ∷ abi_function (argument (txt "_users") addresses_type ∷ []) (txt "addVerifiedUsers") []
        nonpayable
    ∷ abi_function
        (argument (txt "owner") address_type ∷ argument (txt "spender") address_type ∷ [])
        (txt "allowance") (argument [] uint256_type ∷ []) view_state
    ∷ abi_function
        (argument (txt "spender") address_type ∷ argument (txt "amount") uint256_type ∷ [])
        (txt "approve") (argument [] bool_type ∷ []) nonpayable
    ∷ abi_function (argument (txt "account") address_type ∷ []) (txt "balanceOf")
        (argument [] uint256_type ∷ []) view_state
    ∷ abi_function [] (txt "decimals") (argument [] uint8_type ∷ []) view_state
    ∷ []

abbrev pub methods_from_decrease_allowance : List AbiItem
methods_from_decrease_allowance =
    abi_function
      (argument (txt "spender") address_type ∷ argument (txt "subtractedValue") uint256_type ∷ [])
      (txt "decreaseAllowance") (argument [] bool_type ∷ []) nonpayable
    ∷ abi_function [] (txt "emergencyWithdraw") [] nonpayable
    ∷ abi_function [] (txt "getAllVerifiedUsers") (argument [] addresses_type ∷ []) view_state
    ∷ abi_function (argument (txt "role") bytes32_type ∷ []) (txt "getRoleAdmin")
        (argument [] bytes32_type ∷ []) view_state
    ∷ abi_function (argument (txt "role") bytes32_type ∷ argument (txt "index") uint256_type ∷ [])
        (txt "getRoleMember") (argument [] address_type ∷ []) view_state
    ∷ abi_function (argument (txt "role") bytes32_type ∷ []) (txt "getRoleMemberCount")
        (argument [] uint256_type ∷ []) view_state
    ∷ abi_function (argument (txt "role") bytes32_type ∷ argument (txt "account") address_type ∷ [])
        (txt "grantRole") [] nonpayable
    ∷ abi_function [] (txt "hackMint") [] nonpayable
    ∷ []

abbrev pub methods_from_has_role : List AbiItem
methods_from_has_role =
    abi_function (argument (txt "role") bytes32_type ∷ argument (txt "account") address_type ∷ [])
      (txt "hasRole") (argument [] bool_type ∷ []) view_state
    ∷ abi_function
        (argument (txt "spender") address_type ∷ argument (txt "addedValue") uint256_type ∷ [])
        (txt "increaseAllowance") (argument [] bool_type ∷ []) nonpayable
    ∷ abi_function (argument (txt "address_usdt") address_type ∷ []) (txt "initialize") []
        nonpayable
    ∷ abi_function (argument (txt "_user") address_type ∷ []) (txt "isVerified")
        (argument [] bool_type ∷ []) view_state
    ∷ abi_function [] (txt "k") (argument [] uint256_type ∷ []) view_state
    ∷ abi_function [] (txt "market_price") (argument [] uint256_type ∷ []) view_state
    ∷ abi_function [] (txt "max_mint_limit") (argument [] uint256_type ∷ []) view_state
    ∷ abi_function [] (txt "max_mint_limit_verified_user") (argument [] uint256_type ∷ [])
        view_state
    ∷ abi_function [] (txt "max_redeem_limit") (argument [] uint256_type ∷ []) view_state
    ∷ []
