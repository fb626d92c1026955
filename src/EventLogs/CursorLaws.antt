-- ===== src/EventLogs/CursorLaws.antt =====
-- On the order of the steps of `scanEventLog`, src/modules/event-logs/event-logs.service.ts.
use mathlib.Core.List.{Memᴰ}
use mathlib.Core.List.Memᴰ
use vnst_be.Base.{ℕ, ◌*◌, ◌≤◌, ◌<◌, ◌≡◌, ◌⊎◌, Option, some, List, map, ok}
use vnst_be.External.Infra.{Outside, CacheValue, number, Job, insert_event_log, EventLogWeb3}
use vnst_be.EventLogs.Parse.{Collected}
use vnst_be.EventLogs.Scan.{first_block}
use vnst_be.EventLogs.RoundLaws.{IsNode, parse}
use vnst_be.EventLogs.CursorStore.{IsCursor}

module _ {W : Type 0} (o : Outside W) (default_start : ℕ) {cursor : W → Option CacheValue}
    {held : W → List Job} (kept : IsCursor o cursor held) where
  module _ (at_block : ℕ → List EventLogWeb3) (node : IsNode o default_start at_block) (n : ℕ)
      (low : (current : ℕ) (w v : W)
        → o.contract.block_number w ≡ ok current v
        → current < n * 5000) where
    -- From `w` to `v`, the cursor stays, or it becomes the number of a block such that the queue holds
    -- the job for every event of the blocks from the first one of the scan up to that one.
    abbrev pub IsSafe : W → W → Type 0
    IsSafe w v =
        (cursor v ≡ cursor w)
        ⊎ ((from : ℕ) × (current : ℕ) × (u : W) × (u' : W) × (first_block o default_start w
              ≡ ok from u)
            × (o.contract.block_number u ≡ ok current u')
            × (cursor v ≡ some (number current))
            × ((b : ℕ) (log : EventLogWeb3)
                → from ≤ b
                → b ≤ current
                → Memᴰ log (at_block b)
                → Memᴰ (insert_event_log (parse o default_start at_block log)) (held v)))

    -- What the last steps do to the cursor, with the jobs of the events that were collected.
    abbrev Finished : ℕ → Collected → W → W → Type 0
    Finished current c w v =
        (cursor v ≡ cursor w)
        ⊎ ((cursor v ≡ some (number current))
            × ((job : Job) → Memᴰ job (map insert_event_log c.result) → Memᴰ job (held v)))
