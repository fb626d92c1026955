-- ===== src/Ton/Ticker.antt =====
-- src/modules/ton/account-subscription.service.ts: `start`. A timer calls `tick` every ten seconds,
-- whether or not the last call has ended; `isProcessing` is to keep the calls apart.
use vnst_be.Base.{ℕ, zero, suc, ◌+◌, Bool, true, false, List, [], ◌∷◌, if◌then◌else◌}

-- `running` counts the calls of `subscribeToTransactionUpdate` under way, `started` all of them.
pub record Ticker : Type 0 where
  pub is_processing : Bool
  pub running : ℕ
  pub started : ℕ

abbrev pub stopped : Ticker
stopped = record { is_processing = false; running = 0; started = 0 }

-- The timer fires; a call under way returns; a call under way throws.
pub data Event : Type 0 where
  fired returned threw : Event

-- `tick`, up to its first wait.
unfoldable pub tick : Ticker → Ticker
tick t =
    if t.is_processing
    then t
    else record { is_processing = true; running = t.running + 1; started = t.started + 1 }

-- The rest of `tick` after the wait: `isProcessing = false` is passed over by an exception.
unfoldable pub step : Ticker → Event → Ticker
step t fired = tick t
step t returned = elim t.running [
  | zero ↦ t
  | suc n ↦ record t { is_processing = false; running = n }
]
step t threw = elim t.running [ zero ↦ t | suc n ↦ record t { running = n } ]

unfoldable pub run : Ticker → List Event → Ticker
run t [] = t
run t (e ∷ es) = run (step t e) es
