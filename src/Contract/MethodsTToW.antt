-- ===== src/Contract/MethodsTToW.antt =====
-- src/utils/constant/web3.ts: functions transferOwnership to withdrawUSDT. Each list is a part of `VNST_ABI`, named by its first entry.
use vnst_be.Base.{List, [], ◌∷◌, txt}
use vnst_be.Contract.Abi.{
  AbiItem, abi_function, argument, address_type, bytes_type, string_type, uint256_type, nonpayable,
  payable, pure_state, view_state,
}

abbrev pub methods_from_transfer_ownership : List AbiItem
methods_from_transfer_ownership =
    abi_function (argument (txt "newOwner") address_type ∷ []) (txt "transferOwnership") []
      nonpayable
    ∷ abi_function [] (txt "unpause") [] nonpayable
    ∷ abi_function (argument (txt "newImplementation") address_type ∷ []) (txt "upgradeTo") []
        nonpayable
    ∷ abi_function
        (argument (txt "newImplementation") address_type ∷ argument (txt "data") bytes_type ∷ [])
        (txt "upgradeToAndCall") [] payable
    ∷ abi_function [] (txt "usdt")
        (record (argument [] address_type) { internal_type = txt "contract IERC20" } ∷ [])
        view_state
    ∷ abi_function [] (txt "usdt_pool") (argument [] uint256_type ∷ []) view_state
    ∷ abi_function [] (txt "version") (argument [] string_type ∷ []) pure_state
    ∷ abi_function
        (argument (txt "_redeem_covered_amount") uint256_type
          ∷ argument (txt "_mint_covered_amount") uint256_type
          ∷ [])
        (txt "vnst53657420436f766572") [] nonpayable
    ∷ abi_function
        (argument (txt "_market_price") uint256_type
          ∷ argument (txt "_usdt_pool") uint256_type
          ∷ argument (txt "_redeem_covered_price") uint256_type
          ∷ argument (txt "_mint_covered_price") uint256_type
          ∷ [])
        (txt "vnst7265626f6f7420706f6f6c") [] nonpayable
    ∷ abi_function (argument (txt "_redeem_fee") uint256_type ∷ []) (txt "vnst73657420666565") []
        nonpayable
    ∷ []

abbrev pub methods_from_vnst73657420666566 : List AbiItem
methods_from_vnst73657420666566 =
    abi_function (argument (txt "_mint_fee") uint256_type ∷ []) (txt "vnst73657420666566") []
      nonpayable
    ∷ abi_function [] (txt "vnst_pool") (argument [] uint256_type ∷ []) view_state
    ∷ abi_function [] (txt "withdrawOperationPool") [] nonpayable
    ∷ abi_function (argument (txt "_amount") uint256_type ∷ []) (txt "withdrawUSDT") [] nonpayable
    ∷ []
