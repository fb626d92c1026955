-- ===== src/Contract.antt =====
-- src/modules/contract/contract.service.ts and contract.controller.ts. Amounts come from the node in
-- base units. The children hold the contract's ABI.
pub mod Abi
pub mod Events
pub mod MethodsDToM
pub mod MethodsMToT
pub mod MethodsTToW
pub mod VnstAbi
use vnst_be.Base.{ℕ, zero, suc, Bool, Option, none, some, Text, txt, Io, pure, ◌>>=◌}
use vnst_be.Schema.Amount.{Amount, from_wei, format_units}
use vnst_be.External.Infra.{Outside}

-- src/modules/contract/schemas/contract-setting.schema.ts, with a whole number for its value.
pub record ContractSetting : Type 0 where
  pub key : Text
  pub value : ℕ

-- `setting?.value || 25`: a missing setting and the value 0 both give 25.
unfoldable pub otc_delta : Option ContractSetting → ℕ
otc_delta none = 25
otc_delta (some setting) = elim setting.value [ zero ↦ 25 | suc n ↦ suc n ]

-- `find_setting key` is `settingModel.findOne({ key })`.
unfoldable pub get_otc_delta_setting :
    {W : Type 0} → (Text → Io W (Option ContractSetting)) → Io W ℕ
get_otc_delta_setting find_setting = do
  setting ← find_setting (txt "otcDelta")
  pure (otc_delta setting)

module _ {W : Type 0} (o : Outside W) where
  unfoldable pub get_balance_of : Text → Io W Amount
  get_balance_of address = do balance ← o.contract.balance_of address; pure (from_wei balance)

  unfoldable pub get_market_price : Io W Amount
  get_market_price = do market_price ← o.contract.market_price; pure (format_units market_price 6)

  unfoldable pub get_operation_pool : Io W Amount
  get_operation_pool = do balance ← o.contract.operation_pool; pure (from_wei balance)

  unfoldable pub get_total_supply : Io W Amount
  get_total_supply = do total ← o.contract.total_supply; pure (from_wei total)

  unfoldable pub is_verified : Text → Io W Bool
  is_verified address = o.contract.is_verified address
