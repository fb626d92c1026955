-- ===== src/Contract/VnstAbi.antt =====
-- src/utils/constant/web3.ts: `VNST_ABI`, the ABI of the contract.
use vnst_be.Base.{List, ◌++◌}
use vnst_be.Contract.Abi.{AbiItem}
use vnst_be.Contract.Events.{
  events_from_admin_changed, events_from_eredeem, events_from_role_revoked,
}
use vnst_be.Contract.MethodsDToM.{
  methods_from_default_admin_role, methods_from_decrease_allowance, methods_from_has_role,
}
use vnst_be.Contract.MethodsMToT.{
  methods_from_max_redeem_limit_verified_user, methods_from_proxiable_uuid,
  methods_from_set_max_limit_verified_user,
}
use vnst_be.Contract.MethodsTToW.{methods_from_transfer_ownership, methods_from_vnst73657420666566}

abbrev pub vnst_abi : List AbiItem
vnst_abi =
    (events_from_admin_changed
      ++ (events_from_eredeem
          ++ (events_from_role_revoked
              ++ (methods_from_default_admin_role
                  ++ (methods_from_decrease_allowance
                      ++ (methods_from_has_role
                          ++ (methods_from_max_redeem_limit_verified_user
                              ++ (methods_from_proxiable_uuid
                                  ++ (methods_from_set_max_limit_verified_user
                                      ++ (methods_from_transfer_ownership
                                          ++ methods_from_vnst73657420666566))))))))))
