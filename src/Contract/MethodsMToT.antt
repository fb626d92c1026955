-- ===== src/Contract/MethodsMToT.antt =====
-- src/utils/constant/web3.ts: functions max_redeem_limit_verified_user to transferFrom. Each list is a part of `VNST_ABI`, named by its first entry.
use vnst_be.Base.{List, [], ◌∷◌, txt}
use vnst_be.Contract.Abi.{
  AbiItem, abi_function, argument, address_type, addresses_type, bool_type, bytes32_type,
  bytes4_type, string_type, uint256_type, nonpayable, view_state,
}

abbrev pub methods_from_max_redeem_limit_verified_user : List AbiItem
methods_from_max_redeem_limit_verified_user =
    abi_function [] (txt "max_redeem_limit_verified_user") (argument [] uint256_type ∷ [])
      view_state
    ∷ abi_function [] (txt "min_mint_limit") (argument [] uint256_type ∷ []) view_state
    ∷ abi_function [] (txt "min_redeem_limit") (argument [] uint256_type ∷ []) view_state
    ∷ abi_function (argument (txt "_amount_usdt") uint256_type ∷ []) (txt "mint") [] nonpayable
    ∷ abi_function [] (txt "mint_covered_amount") (argument [] uint256_type ∷ []) view_state
    ∷ abi_function [] (txt "mint_covered_price") (argument [] uint256_type ∷ []) view_state
    ∷ abi_function [] (txt "mint_fee") (argument [] uint256_type ∷ []) view_state
    ∷ abi_function [] (txt "name") (argument [] string_type ∷ []) view_state
    ∷ abi_function [] (txt "operation_pool") (argument [] uint256_type ∷ []) view_state
    ∷ abi_function [] (txt "owner") (argument [] address_type ∷ []) view_state
    ∷ abi_function [] (txt "pause") [] nonpayable
    ∷ abi_function [] (txt "paused") (argument [] bool_type ∷ []) view_state
    ∷ []

abbrev pub methods_from_proxiable_uuid : List AbiItem
methods_from_proxiable_uuid =
    abi_function [] (txt "proxiableUUID") (argument [] bytes32_type ∷ []) view_state
    ∷ abi_function (argument (txt "_amount_vnst") uint256_type ∷ []) (txt "redeem") [] nonpayable
    ∷ abi_function [] (txt "redeem_covered_amount") (argument [] uint256_type ∷ []) view_state
    ∷ abi_function [] (txt "redeem_covered_price") (argument [] uint256_type ∷ []) view_state
    ∷ abi_function [] (txt "redeem_fee") (argument [] uint256_type ∷ []) view_state
    ∷ abi_function (argument (txt "mod") address_type ∷ []) (txt "removeMod") [] nonpayable
    ∷ abi_function (argument (txt "_users") addresses_type ∷ []) (txt "removeVerifiedUsers") []
        nonpayable
    ∷ abi_function [] (txt "renounceOwnership") [] nonpayable
    ∷ abi_function (argument (txt "role") bytes32_type ∷ argument (txt "account") address_type ∷ [])
        (txt "renounceRole") [] nonpayable
    ∷ abi_function (argument (txt "role") bytes32_type ∷ argument (txt "account") address_type ∷ [])
        (txt "revokeRole") [] nonpayable
    ∷ abi_function (argument (txt "_market_price") uint256_type ∷ []) (txt "setMarketPrice") []
        nonpayable
    ∷ []

abbrev pub methods_from_set_max_limit_verified_user : List AbiItem
methods_from_set_max_limit_verified_user =
    abi_function
      (argument (txt "_max_mint_limit") uint256_type
        ∷ argument (txt "_max_redeem_limit") uint256_type
        ∷ [])
      (txt "setMaxLimitVerifiedUser") [] nonpayable
    ∷ abi_function (argument (txt "_max_mint_limit") uint256_type ∷ []) (txt "setMaxMintLimit") []
        nonpayable
    ∷ abi_function (argument (txt "_max_redeem_limit") uint256_type ∷ []) (txt "setMaxRedeemLimit")
        [] nonpayable
    ∷ abi_function (argument (txt "interfaceId") bytes4_type ∷ []) (txt "supportsInterface")
        (argument [] bool_type ∷ []) view_state
    ∷ abi_function [] (txt "symbol") (argument [] string_type ∷ []) view_state
    ∷ abi_function [] (txt "totalSupply") (argument [] uint256_type ∷ []) view_state
    ∷ abi_function (argument (txt "to") address_type ∷ argument (txt "amount") uint256_type ∷ [])
        (txt "transfer") (argument [] bool_type ∷ []) nonpayable
    ∷ abi_function
        (argument (txt "from") address_type
          ∷ argument (txt "to") address_type
          ∷ argument (txt "amount") uint256_type
          ∷ [])
        (txt "transferFrom") (argument [] bool_type ∷ []) nonpayable
    ∷ []
