-- ===== src/Auth/GuardLaws.antt =====
-- On the guard AuthGuard, src/modules/auth/auth.middleware.ts.
use vnst_be.Base.{◌≡◌, ◌≢◌, ◌↔◌, refl, ap, Option, none, some, [], ◌∷◌, Text, trim, arith}
use vnst_be.Auth.Guards.{allowed, owner_access, auth_guard}

module _ (replace_bearer : Text → Text) (verify : Text → Option (Option Text)) where
  -- The header whose token carries the owner.
  pub record IsBearer (authorization : Option Text) (owner : Text) : Type 0 where
    pub header : Text
    pub given : authorization ≡ some header
    pub filled : header ≢ []
    pub verified : verify (trim (replace_bearer header)) ≡ some (some owner)
    pub named : owner ≢ []

  owner_access-allowed :
      (r : Option (Option Text)) (owner : Text)
      → owner_access replace_bearer verify r ≡ allowed owner
      → (r ≡ some (some owner)) × (owner ≢ [])
  owner_access-allowed none owner h = absurd (ground (arith, h))
  owner_access-allowed (some none) owner h = absurd (ground (arith, h))
  owner_access-allowed (some (some [])) owner h = absurd (ground (arith, h))
  owner_access-allowed (some (some (c ∷ s))) owner h =
      let e : c ∷ s ≡ owner = cc in (ap (λ x. some (some x)) e, λ z. cc (e, z))

  allowed-owner_access :
      (owner : Text)
      → owner ≢ []
      → owner_access replace_bearer verify (some (some owner)) ≡ allowed owner
  allowed-owner_access [] n = absurd (n refl)
  allowed-owner_access (c ∷ s) n = refl

  auth_guard-IsBearer :
      (authorization : Option Text) (owner : Text)
      → auth_guard replace_bearer verify authorization ≡ allowed owner
      → IsBearer authorization owner
  unfolding auth_guard
  auth_guard-IsBearer none owner h = absurd (ground (arith, h))
  auth_guard-IsBearer (some []) owner h = absurd (ground (arith, h))
  auth_guard-IsBearer (some (c ∷ s)) owner h =
      let (e, n) = owner_access-allowed (verify (trim (replace_bearer (c ∷ s)))) owner h in
      record { header = c ∷ s; given = refl; filled = λ z. cc; verified = e; named = n }

  IsBearer-auth_guard :
      (header owner : Text)
      → header ≢ []
      → verify (trim (replace_bearer header)) ≡ some (some owner)
      → owner ≢ []
      → auth_guard replace_bearer verify (some header) ≡ allowed owner
  unfolding auth_guard
  IsBearer-auth_guard [] owner filled e n = absurd (filled refl)
  IsBearer-auth_guard (c ∷ s) owner filled e n = rw e (allowed-owner_access owner n)

  -- A request passes with an owner exactly when it has a header that is not empty, and the token in
  -- it, without "Bearer" and trimmed, is verified and carries that owner, not empty.
  pub auth_guard_iff :
      (authorization : Option Text) (owner : Text)
      → (auth_guard replace_bearer verify authorization ≡ allowed owner)
        ↔ IsBearer authorization owner
  auth_guard_iff authorization owner = (
    auth_guard-IsBearer authorization owner,
    λ b.
        let open_header = IsBearer-auth_guard b.header owner b.filled b.verified b.named in
        rw b.given open_header,
  )
