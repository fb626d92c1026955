-- ===== src/Ton/TickerLaws.antt =====
-- On the timer of `start`, src/modules/ton/account-subscription.service.ts.
use vnst_be.Base.{◌+◌, ◌≤◌, ◌<◌, ◌≡◌, ◌≢◌, refl, ◌∙◌, true, false, List, [], ◌∷◌, All, arith}
use vnst_be.Ton.Ticker.{Ticker, stopped, Event, fired, returned, threw, tick, step, run}

-- At most one call is under way, and then the flag is set.
record IsGuarded (t : Ticker) : Type 0 where
  single : t.running ≤ 1
  flagged : 0 < t.running → t.is_processing ≡ true

step-IsGuarded : (t : Ticker) (e : Event) → IsGuarded t → IsGuarded (step t e)
unfolding step tick
step-IsGuarded t fired g = record {
  single = ground (arith, g.flagged);
  flagged = λ h. ground (arith, g.flagged);
}
step-IsGuarded t returned g = record {
  single = ground arith;
  flagged = λ h. ground (arith, g.flagged);
}
step-IsGuarded t threw g = record {
  single = ground arith;
  flagged = λ h. ground (arith, g.flagged);
}

run-IsGuarded : (t : Ticker) (es : List Event) → IsGuarded t → IsGuarded (run t es)
unfolding run
run-IsGuarded t [] g = g
run-IsGuarded t (e ∷ es) g = run-IsGuarded (step t e) es (step-IsGuarded t e g)

stopped-IsGuarded : IsGuarded stopped
stopped-IsGuarded = record { single = omega arith; flagged = λ h. absurd (omega arith) }

-- Whatever the order of firings, returns and exceptions, at most one call of
-- `subscribeToTransactionUpdate` is under way.
pub run-single : (es : List Event) → (run stopped es).running ≤ 1
run-single es = (run-IsGuarded stopped es stopped-IsGuarded).single

-- The flag is set and nothing is under way.
record IsStuck (t : Ticker) : Type 0 where
  idle : t.running ≡ 0
  flagged : t.is_processing ≡ true

step-IsStuck :
    (t : Ticker) (e : Event) → IsStuck t → IsStuck (step t e) × ((step t e).started ≡ t.started)
unfolding step tick
step-IsStuck t fired s = (record { idle = ground arith; flagged = ground arith }, ground arith)
step-IsStuck t returned s = (record { idle = ground arith; flagged = ground arith }, ground arith)
step-IsStuck t threw s = (record { idle = ground arith; flagged = ground arith }, ground arith)

run-IsStuck : (t : Ticker) (es : List Event) → IsStuck t → (run t es).started ≡ t.started
unfolding run
run-IsStuck t [] s = refl
run-IsStuck t (e ∷ es) s =
    let (s', same) = step-IsStuck t e s in run-IsStuck (step t e) es s' ∙ same

threw-IsStuck :
    (t : Ticker)
    → IsGuarded t
    → 0 < t.running
    → IsStuck (step t threw) × ((step t threw).started ≡ t.started)
unfolding step
threw-IsStuck t g busy =
    (record { idle = ground arith; flagged = ground (arith, g.flagged busy) }, ground arith)

-- Once a call that is under way throws, no later firing ever starts another: the flag stays set.
pub run-threw :
    (es fs : List Event)
    → 0 < (run stopped es).running
    → (run (step (run stopped es) threw) fs).started ≡ (run stopped es).started
run-threw es fs busy =
    let (stuck, same) =
      threw-IsStuck (run stopped es) (run-IsGuarded stopped es stopped-IsGuarded) busy in
    run-IsStuck (step (run stopped es) threw) fs stuck ∙ same

-- The flag is set exactly while a call is under way.
record IsExact (t : Ticker) : Type 0 where
  idle : t.running ≡ 0 → t.is_processing ≡ false

step-IsExact : (t : Ticker) (e : Event) → IsGuarded t → e ≢ threw → IsExact t → IsExact (step t e)
unfolding step tick
step-IsExact t fired g n x = record { idle = λ h. ground (arith, x.idle) }
step-IsExact t returned g n x = record { idle = λ h. ground (arith, x.idle) }
step-IsExact t threw g n x = absurd (n refl)

run-IsExact :
    (t : Ticker) (es : List Event)
    → IsGuarded t
    → All (λ e. e ≢ threw) es
    → IsExact t
    → IsExact (run t es)
unfolding run
run-IsExact t [] g n x = x
run-IsExact t (e ∷ es) g n x =
    run-IsExact (step t e) es (step-IsGuarded t e g) n.1 (step-IsExact t e g n.0 x)

-- As long as no call has thrown, a firing with no call under way starts one.
pub run-restarts :
    (es : List Event)
    → All (λ e. e ≢ threw) es
    → (run stopped es).running ≡ 0
    → (step (run stopped es) fired).started ≡ (run stopped es).started + 1
unfolding step tick
run-restarts es n idle =
    let x = run-IsExact stopped es stopped-IsGuarded n (record { idle = λ h. refl }) in
    let e = x.idle idle in rw e
