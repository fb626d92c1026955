-- ===== src/Auth/Strategy.antt =====
-- src/modules/auth/jwt.strategy.ts and jwt-auth.guard.ts: the token in the cookie "access-token".
-- passport and jsonwebtoken verify it with the program's secret: `verify` is a parameter, `none` where
-- the token is not accepted.
use vnst_be.Base.{Option, none, some, Text}
use vnst_be.Auth.Service.{Claims}
use vnst_be.Auth.Guards.{Access, allowed, denied, unauthorized_exception}

-- `req?.cookies["access-token"]`
abbrev pub cookie_extractor : Option Text → Option Text
cookie_extractor cookie = cookie

-- What is put into `req.user`.
abbrev pub validate : Claims → Claims
validate props = props

module _ (verify : Text → Option Claims) where
  abbrev pub accept : Option Claims → Access Claims
  accept none = denied unauthorized_exception
  accept (some claims) = allowed (validate claims)

  -- JwtAuthGuard.
  unfoldable pub jwt_auth_guard : Option Text → Access Claims
  jwt_auth_guard cookie = elim (cookie_extractor cookie) [
    | none ↦ denied unauthorized_exception
    | some token ↦ accept (verify token)
  ]
