-- ===== src/Auth/Guards.antt =====
-- src/modules/auth: the guards auth.middleware.ts and merchant.middleware.ts, and the validation of
-- local.strategy.ts. `verify` of jsonwebtoken is a parameter: `none` where it throws, otherwise the
-- payload's property `payload`, if it has one.
use vnst_be.Base.{
  Option, none, some, Text, txt, truthy, option_truthy, trim, if◌then◌else◌, Exception,
  http_exception, Io,
}
use vnst_be.External.Infra.{Outside}
use vnst_be.Auth.Service.{AuthDto, Jwt, Ethers, Session, login_evm}

abbrev pub unauthorized_exception : Exception
unauthorized_exception = http_exception 401 (txt "Unauthorized")

-- Allowed with the owner that is put into the request, or an exception.
pub data Access (A : Type 0) : Type 0 where
  allowed : A → Access A
  denied : Exception → Access A

module _ (replace_bearer : Text → Text) (verify : Text → Option (Option Text)) where
  -- `if (!payload?.payload) throw`; what `verify` throws becomes the same exception.
  abbrev pub owner_access : Option (Option Text) → Access Text
  owner_access none = denied unauthorized_exception
  owner_access (some none) = denied unauthorized_exception
  owner_access (some (some owner)) =
      if truthy owner then allowed owner else denied unauthorized_exception

  -- AuthGuard.canActivate; `replace_bearer` is `replace("Bearer", "")`.
  unfoldable pub auth_guard : Option Text → Access Text
  auth_guard none = denied unauthorized_exception
  auth_guard (some authorization) =
      if truthy authorization
      then owner_access (verify (trim (replace_bearer authorization)))
      else denied unauthorized_exception

-- MerchantGuard.canActivate: any key that is not empty passes.
unfoldable pub merchant_guard : Option Text → Access (Unit {0})
merchant_guard key = if option_truthy key then allowed tt else denied unauthorized_exception

-- LocalStrategy.validate: `loginEVM` returns a session or throws.
unfoldable pub validate_local : {W : Type 0} → Outside W → Jwt W → Ethers → AuthDto → Io W Session
validate_local o jwt ethers props = login_evm o jwt ethers props
