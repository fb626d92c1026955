-- ===== src/Ton/ProofLaws.antt =====
-- On `checkProof`, src/modules/ton/ton-proof.service.ts.
use vnst_be.Base.{
  ℕ, suc, sym, subst, ◌+◌, ◌/◌, ◌≤◌, ◌≡◌, refl, ◌∙◌, ◌⊎◌, inl, inr, Bool, true, false, Option, none,
  some, List, Text, text_eq, text_eq_iff, any, leb→le, le→leb, Io, Result, ok, thrown, pure,
  recover, bind-eq-ok, arith, ap, Option-cases, Result-cases,
}
use vnst_be.Utils.Retry.{Timer}
use vnst_be.Utils.ParseInt.{negative}
use vnst_be.Ton.Cells.{Cells}
use vnst_be.Ton.WalletsData.{StateInit, try_parse_public_key}
use vnst_be.Ton.Bytes.{from_hex, write_uint32_be, write_uint32_le, write_uint64_le}
use vnst_be.Ton.Proof.{
  Proof, CheckProof, TonAddress, TonCrypto, valid_auth_time, allowed_domains, or_throw,
  unless_false, proof_message, signed_hash, verify_proof, is_fresh, get_wallet_public_key,
  public_key_of, check_time, check_address, check_steps, check_proof,
}

module _ {W : Type 0} where
  or_throw-eq-ok :
      {A : Type 0} (x : Option A) {a : A} {w v : W} → or_throw x w ≡ ok a v → (x ≡ some a) × (w ≡ v)
  or_throw-eq-ok none h = cc
  or_throw-eq-ok (some a) h = (cc, cc)

  unless_false-eq-true :
      (test : Bool) (k : Io W Bool) {w v : W}
      → unless_false test k w ≡ ok true v
      → (test ≡ true) × (k w ≡ ok true v)
  unless_false-eq-true true k h = (refl, h)
  unless_false-eq-true false k h = absurd (ground arith)

  recover-eq-true :
      (r : Result W Bool) {v : W} → recover r (λ e. pure false) ≡ ok true v → r ≡ ok true v
  recover-eq-true (ok b w) h = h
  recover-eq-true (thrown e w) h = absurd (ground arith)

module _ {W Cell Slice : Type 0} (timer : Timer W) (cells : Cells Cell Slice)
    (c : TonCrypto W Cell) where
  -- The signature is that of the message of this proof, by this key.
  pub record IsSigned (address : TonAddress) (public_key : List ℕ) (proof : Proof) : Type 0 where
    pub wc : List ℕ
    pub ts : List ℕ
    pub dl : List ℕ
    pub wrote_wc : write_uint32_be address.work_chain ≡ some wc
    pub wrote_ts : write_uint64_le proof.timestamp ≡ some ts
    pub wrote_dl : write_uint32_le proof.domain.length_bytes ≡ some dl
    pub verified :
        c.verify
          (signed_hash timer cells c (proof_message timer cells c wc address.hash dl ts proof))
          (c.from_base64 proof.signature)
          public_key
        ≡ some true

  -- All that `checkProof` asks for in a run from `w` to `v`. `now` is what the clock shows in that run, in
  -- milliseconds, after the key has been found.
  pub record IsProven (payload : CheckProof) (w v : W) : Type 0 where
    pub state : StateInit Cell
    pub public_key : List ℕ
    pub wanted : TonAddress
    pub before : W
    pub now : ℕ
    pub parsed_state : c.load_state_init payload.proof.state_init ≡ some state
    pub key_source :
        ((try_parse_public_key cells c.init_code state ≡ some public_key) × (w ≡ before))
        ⊎ ((try_parse_public_key cells c.init_code state ≡ none)
            × (get_wallet_public_key c payload.address w ≡ ok public_key before))
    pub reads : timer.now before ≡ ok now v
    pub same_key : public_key ≡ from_hex payload.public_key
    pub parsed_address : c.parse_address payload.address ≡ some wanted
    pub same_address : c.address_equals (c.contract_address wanted.work_chain state) wanted ≡ true
    pub domain : any (text_eq payload.proof.domain.value) allowed_domains ≡ true
    pub fresh : now / 1000 ≤ payload.proof.timestamp + valid_auth_time
    pub signed : IsSigned (c.contract_address wanted.work_chain state) public_key payload.proof

  verify_proof-IsSigned :
      (address : TonAddress) (key : List ℕ) (proof : Proof) (w v : W)
      → verify_proof timer cells c address key proof w ≡ ok true v
      → IsSigned address key proof × (w ≡ v)
  unfolding verify_proof
  verify_proof-IsSigned address key proof w v h =
      let (wc, w1, e1, h1) = bind-eq-ok (or_throw (write_uint32_be address.work_chain) w) _ h in
      let (ts, w2, e2, h2) = bind-eq-ok (or_throw (write_uint64_le proof.timestamp) w1) _ h1 in
      let (dl, w3, e3, h3) =
        bind-eq-ok (or_throw (write_uint32_le proof.domain.length_bytes) w2) _ h2 in
      let signed : IsSigned address key proof = record {
        wc = wc;
        ts = ts;
        dl = dl;
        wrote_wc = (or_throw-eq-ok _ e1).0;
        wrote_ts = (or_throw-eq-ok _ e2).0;
        wrote_dl = (or_throw-eq-ok _ e3).0;
        verified = (or_throw-eq-ok _ h3).0;
      } in
      (
        signed,
        (or_throw-eq-ok _ e1).1
            ∙ (or_throw-eq-ok _ e2).1
            ∙ (or_throw-eq-ok _ e3).1
            ∙ (or_throw-eq-ok _ h3).1,
      )

  public_key_of-eq-ok :
      (state : StateInit Cell) (address : Text) (w : W) {key : List ℕ} {v : W}
      → public_key_of timer cells c state address w ≡ ok key v
      → ((try_parse_public_key cells c.init_code state ≡ some key) × (w ≡ v))
        ⊎ ((try_parse_public_key cells c.init_code state ≡ none)
            × (get_wallet_public_key c address w ≡ ok key v))
  unfolding public_key_of
  public_key_of-eq-ok state address w {key} {v} h =
      elim (Option-cases (try_parse_public_key cells c.init_code state)) [
        | inl e ↦ inr (e, ground arith)
        | inr (k, e) ↦ inl (ground arith, ground arith)
      ]

  public_key_of-ok :
      (state : StateInit Cell) (address : Text) (w : W) (key : List ℕ) (v : W)
      → ((try_parse_public_key cells c.init_code state ≡ some key) × (w ≡ v))
        ⊎ ((try_parse_public_key cells c.init_code state ≡ none)
            × (get_wallet_public_key c address w ≡ ok key v))
      → public_key_of timer cells c state address w ≡ ok key v
  unfolding public_key_of
  public_key_of-ok state address w key v (inl (shown, same)) =
      rw (shown, public_key_of) (ap (ok key) same)
  public_key_of-ok state address w key v (inr (hidden, asked)) = rw (hidden, public_key_of) asked

  -- An accepted proof passes every check: the key is that of the state that the wallet shows, or of
  -- the deployed wallet; it is the key that the caller names; the state belongs to the address; the
  -- domain is allowed; the proof is at most fifteen minutes old by the clock of that run; and the
  -- signature is the key's, of the message with this address, domain, time and payload.
  pub check_proof-IsProven :
      (payload : CheckProof) (w v : W)
      → check_proof timer cells c payload w ≡ ok true v
      → IsProven payload w v
  unfolding check_proof check_steps check_address check_time is_fresh
  check_proof-IsProven payload w v h =
      let run = recover-eq-true (check_steps timer cells c payload w) h in
      let (state, w1, e1, h1) =
        bind-eq-ok (or_throw (c.load_state_init payload.proof.state_init) w) _ run in
      let (key, w2, e2, h2) =
        bind-eq-ok (public_key_of timer cells c state payload.address w1) _ h1 in
      let (same, h3) = unless_false-eq-true _ _ h2 in
      let (wanted, w3, e3, h4) = bind-eq-ok (or_throw (c.parse_address payload.address) w2) _ h3 in
      let (eq, h5) = unless_false-eq-true _ _ h4 in
      let (allowed, h6) = unless_false-eq-true _ _ h5 in
      let (now, w4, e4, h7) = bind-eq-ok (timer.now w3) _ h6 in
      let (fresh, h8) = unless_false-eq-true _ _ h7 in
      let (signed, end) = verify_proof-IsSigned _ key payload.proof w4 v h8 in
      record {
        state = state;
        public_key = key;
        wanted = wanted;
        before = w2;
        now = now;
        parsed_state = (or_throw-eq-ok _ e1).0;
        key_source = public_key_of-eq-ok state payload.address w (
            subst (λ x. public_key_of timer cells c state payload.address x ≡ ok key w2)
              (sym (or_throw-eq-ok _ e1).1) e2);
        reads =
            subst (λ x. timer.now x ≡ ok now v) (sym (or_throw-eq-ok _ e3).1)
              (e4 ∙ ap (ok now) end);
        same_key = (text_eq_iff key (from_hex payload.public_key)).0 same;
        parsed_address = (or_throw-eq-ok _ e3).0;
        same_address = eq;
        domain = allowed;
        fresh = leb→le _ _ fresh;
        signed = signed;
      }

  IsSigned-verify_proof :
      (address : TonAddress) (key : List ℕ) (proof : Proof) (w : W)
      → IsSigned address key proof
      → verify_proof timer cells c address key proof w ≡ ok true w
  unfolding verify_proof
  IsSigned-verify_proof address key proof w s =
      rw (s.wrote_wc, s.wrote_ts, s.wrote_dl, s.verified) refl

  -- Conversely, a proof that passes these checks in a run from `w` to `v`, its age by the clock that is
  -- read then, is accepted in that run.
  pub IsProven-check_proof :
      (payload : CheckProof) (w v : W)
      → IsProven payload w v
      → check_proof timer cells c payload w ≡ ok true v
  unfolding check_proof check_steps check_address check_time is_fresh
  IsProven-check_proof payload w v proven =
      let same = (text_eq_iff proven.public_key (from_hex payload.public_key)).1 proven.same_key in
      let fresh =
        le→leb (proven.now / 1000) (payload.proof.timestamp + valid_auth_time) proven.fresh in
      let signed = IsSigned-verify_proof _ proven.public_key payload.proof v proven.signed in
      let found =
        public_key_of-ok proven.state payload.address w proven.public_key proven.before
          proven.key_source in
      rw
        (
          proven.parsed_state, found, same, proven.parsed_address, proven.same_address,
          proven.domain, proven.reads, fresh, signed,
        )
        refl

  -- `checkProof` throws nothing.
  check_proof-total :
      (payload : CheckProof) (w : W)
      → (b : Bool) × (v : W) × (check_proof timer cells c payload w ≡ ok b v)
  unfolding check_proof
  check_proof-total payload w = elim (Result-cases (check_steps timer cells c payload w)) [
    | inl (b, v, e) ↦ (b, v, rw e)
    | inr (x, v, e) ↦ (false, v, rw e)
  ]

  -- A wallet of a workchain with a negative number, such as the masterchain's -1, is never accepted:
  -- the unsigned write of its workchain throws, which counts as a bad proof.
  pub check_proof-masterchain :
      (payload : CheckProof) (wanted : TonAddress) (n : ℕ) (w : W)
      → c.parse_address payload.address ≡ some wanted
      → ((state : StateInit Cell)
          → (c.contract_address wanted.work_chain state).work_chain ≡ negative (suc n))
      → (v : W) × (check_proof timer cells c payload w ≡ ok false v)
  unfolding write_uint32_be
  check_proof-masterchain payload wanted n w e neg =
      let (b, v, h) = check_proof-total payload w in (v, h ∙ ap (λ r. ok r v) (refused b v h))
    where
      refused : (b : Bool) (v : W) → check_proof timer cells c payload w ≡ ok b v → b ≡ false
      refused false v h = refl
      refused true v h =
          let p = check_proof-IsProven payload w v h in
          let same : p.wanted ≡ wanted = cc (p.parsed_address, e) in
          let chain : (c.contract_address p.wanted.work_chain p.state).work_chain
              ≡ negative (suc n) =
            rw same (neg p.state) in
          absurd (grind (arith, p.signed.wrote_wc, chain))
