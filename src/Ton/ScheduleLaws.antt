-- ===== src/Ton/ScheduleLaws.antt =====
-- On `syncBalances`, src/modules/ton/ton.schedule.ts.
use vnst_be.Base.{
  ℕ, zero, suc, ◌+◌, ◌*◌, ◌≤◌, ◌<◌, ◌≡◌, refl, sym, ◌∙◌, ap, Bool, true, false, Option, List, Text,
  length, take, drop, length-take_le, take-take, take_all, take-append-drop, drop-drop, length-drop,
  ltb, ok, bind-eq-ok, for_each, for_each-append, Bool-cases, ltb→lt, arith, inl, inr, subst, [],
  ◌∷◌, some, Result-cases,
}
use vnst_be.External.Infra.{Outside}
use vnst_be.Ton.Schedule.{
  JettonWallet, JettonClient, sync_wallet, sync_page, sync_rounds, sync_balances,
}

module _ {W : Type 0} (o : Outside W) (client : JettonClient W) (owners : Option (List Text))
    (wallets : List JettonWallet) where
  -- The service lists `wallets`: a request gives the part that its limit and offset ask for, and
  -- changes nothing. Nor does a pause.
  abbrev pub Lists : Type 0
  Lists =
      (limit offset : ℕ) (w : W)
      → client limit offset owners w ≡ ok (take limit (drop offset wallets)) w

  abbrev pub Pauses : Type 0
  Pauses = (ms : ℕ) (w : W) → o.timer.sleep ms w ≡ ok tt w

  module _ (lists : Lists) (pauses : Pauses) where
    -- One round handles the first hundred of the wallets that are left.
    sync_page-take :
        (offset : ℕ) (w v : W)
        → for_each (take 100 (drop offset wallets)) (sync_wallet o client) w ≡ ok tt v
        → sync_page o client owners offset w
          ≡ ok (ltb 100 (length (take 101 (drop offset wallets)))) v
    unfolding sync_page
    sync_page-take offset w v h = rw (
      lists 101 offset w,
      take-take 100 101 (drop offset wallets) (omega arith),
      h,
      pauses 1000 v,
    )

    round-more :
        (fuel offset : ℕ) (w u : W) (b : Bool)
        → sync_page o client owners offset w ≡ ok b u
        → b ≡ true
        → sync_rounds o client (suc fuel) owners offset w
          ≡ sync_rounds o client fuel owners (offset + 100) u
    unfolding sync_rounds
    round-more fuel offset w u true e h = rw (e, sync_rounds)
    round-more fuel offset w u false e h = absurd (ground arith)

    sync_rounds-for_each :
        (fuel offset : ℕ) (w v : W)
        → 0 < fuel
        → length (drop offset wallets) ≤ fuel * 100
        → for_each (drop offset wallets) (sync_wallet o client) w ≡ ok tt v
        → sync_rounds o client fuel owners offset w ≡ ok true v
    unfolding sync_rounds
    sync_rounds-for_each zero offset w v pos enough h = absurd (omega arith)
    sync_rounds-for_each (suc fuel) offset w v pos enough h =
        let rest = drop offset wallets in
        elim (Bool-cases (ltb 100 (length rest))) [
          | inr short ↦
              let few : length rest ≤ 100 = ground arith in
              let page = sync_page-take offset w v (
                subst (λ xs. for_each xs (sync_wallet o client) w ≡ ok tt v)
                  (sym (take_all 100 rest few)) h) in
              let stop : ltb 100 (length (take 101 rest)) ≡ false =
                rw (take_all 101 rest (omega arith)) short in
              rw (page, sync_rounds, stop)
          | inl long ↦
              let many : 101 ≤ length rest = ltb→lt 100 (length rest) long in
              let split =
                subst (λ xs. for_each xs (sync_wallet o client) w ≡ ok tt v)
                  (sym (take-append-drop 100 rest)) h in
              let (_, u, first, later) =
                bind-eq-ok (for_each (take 100 rest) (sync_wallet o client) w) _
                  (sym (for_each-append (take 100 rest) (drop 100 rest) _ w) ∙ split) in
              let next =
                subst (λ xs. for_each xs (sync_wallet o client) u ≡ ok tt v)
                  (drop-drop 100 offset wallets) later in
              let left : length (drop (offset + 100) wallets) ≤ fuel * 100 =
                omega (arith, ap length (drop-drop 100 offset wallets), length-drop 100 rest) in
              let go : ltb 100 (length (take 101 rest)) ≡ true =
                rw (length-take_le 101 rest many) refl in
              round-more fuel offset w u _ (sync_page-take offset w u first) go
              ∙ (sync_rounds-for_each fuel (offset + 100) u v (omega (arith, length-drop 100 rest))
                  left next)
        ]

-- The wallets of one owner end: the service lists at most a hundred from the last page on that
-- `sync_fuel` rounds reach.
pub record IsShort {W : Type 0} (client : JettonClient W) (sync_fuel : ℕ) : Type 0 where
  pub positive : 0 < sync_fuel
  pub short :
      (owner : Text) (offset : ℕ) (w v : W) (xs : List JettonWallet)
      → sync_fuel * 100 ≤ offset + 100
      → client 101 offset (some (owner ∷ [])) w ≡ ok xs v
      → length xs ≤ 100

module _ {W : Type 0} (o : Outside W) (client : JettonClient W) (sync_fuel : ℕ)
    (is_short : IsShort client sync_fuel) (owner : Text) where
  sync_page-last :
      (offset : ℕ) (w v : W) (b : Bool)
      → sync_fuel * 100 ≤ offset + 100
      → sync_page o client (some (owner ∷ [])) offset w ≡ ok b v
      → b ≡ false
  unfolding sync_page
  sync_page-last offset w v b behind e =
      let (xs, u, listed, rest) = bind-eq-ok (client 101 offset (some (owner ∷ [])) w) _ e in
      let (_, _, _, paused) = bind-eq-ok (for_each (take 100 xs) (sync_wallet o client) u) _ rest in
      let (_, _, _, last) = bind-eq-ok (o.timer.sleep 1000 _) _ paused in
      let few = is_short.short owner offset w u xs behind listed in
      let value : ltb 100 (length xs) ≡ b = cc in
      elim (Bool-cases (ltb 100 (length xs))) [
        | inl long ↦ absurd (omega (arith, ltb→lt 100 (length xs) long))
        | inr short ↦ sym value ∙ short
      ]

  sync_rounds-IsShort :
      (fuel offset : ℕ) (w : W)
      → sync_fuel * 100 ≤ offset + suc fuel * 100
      → (v : W) × (sync_rounds o client (suc fuel) (some (owner ∷ [])) offset w ≡ ok true v)
  unfolding sync_rounds
  sync_rounds-IsShort zero offset w reach =
      elim (Result-cases (sync_page o client (some (owner ∷ [])) offset w)) [
        | inl (true, v, e) ↦
            let never : true ≡ false = sync_page-last offset w v true (omega arith) e in cc
        | inl (false, v, e) ↦ (v, rw (e, sync_rounds) refl)
        | inr (x, v, e) ↦ (v, rw (e, sync_rounds) refl)
      ]
  sync_rounds-IsShort (suc fuel) offset w reach =
      elim (Result-cases (sync_page o client (some (owner ∷ [])) offset w)) [
        | inl (true, v, e) ↦
            let (u, rest) = sync_rounds-IsShort fuel (offset + 100) v (omega arith) in
            (u, rw (e, sync_rounds) rest)
        | inl (false, v, e) ↦ (v, rw (e, sync_rounds) refl)
        | inr (x, v, e) ↦ (v, rw (e, sync_rounds) refl)
      ]

  pub sync_balances-ends :
      (w : W) → (v : W) × (sync_balances o client sync_fuel (some (owner ∷ [])) w ≡ ok true v)
  unfolding sync_balances
  sync_balances-ends w = go sync_fuel is_short.positive refl
    where
      go :
          (n : ℕ)
          → 0 < n
          → n ≡ sync_fuel
          → (v : W) × (sync_rounds o client n (some (owner ∷ [])) 0 w ≡ ok true v)
      go zero pos e = absurd (omega arith)
      go (suc n) pos e = sync_rounds-IsShort n 0 w (omega (arith, e))

-- If the service lists `wallets` page by page and pauses change nothing, then `syncBalances` is one
-- pass over all of `wallets`, in their order, each handled once: where that pass ends without an
-- exception, `syncBalances` ends in the same state, given at least one round, and one for each hundred wallets begun.
pub sync_balances-for_each :
    {W : Type 0} (o : Outside W) (client : JettonClient W) (owners : Option (List Text))
    (wallets : List JettonWallet)
    → Lists o client owners wallets
    → Pauses o client owners wallets
    → (fuel : ℕ) (w v : W) → 0 < fuel
    → length wallets ≤ fuel * 100
    → for_each wallets (sync_wallet o client) w ≡ ok tt v
    → sync_balances o client fuel owners w ≡ ok true v
unfolding sync_balances
sync_balances-for_each o client owners wallets lists pauses fuel w v pos enough h =
    sync_rounds-for_each o client owners wallets lists pauses fuel 0 w v pos enough h
