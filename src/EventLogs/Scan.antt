-- ===== src/EventLogs/Scan.antt =====
-- src/modules/event-logs/event-logs.service.ts: `scanEventLog`.
use vnst_be.Base.{
  ℕ, zero, suc, ◌+◌, Bool, true, false, Option, none, some, List, [], ◌∷◌, ◌++◌, map, leb, ltb,
  if◌then◌else◌, Io, ok, bind, pure, ◌>>=◌, ◌>>◌, try_catch,
}
use vnst_be.Schema.Chains.{bsc}
use vnst_be.External.Infra.{
  Outside, Job, update_balance, insert_event_log, CacheValue, flag, number, EventLogWeb3,
  PastEventsQuery,
}
use vnst_be.EventLogs.Parse.{
  Collected, parse_event_log, transfer_addresses, unique, cache_last_scan_block_number,
}

abbrev pub max_block_range : ℕ
max_block_range = 5000

abbrev pub range_query : ℕ → ℕ → PastEventsQuery
range_query from to = record { block_hash = none; from_block = from; to_block = to }

-- `toBlock`.
abbrev pub clip : ℕ → ℕ → ℕ
clip to current = if ltb current to then current else to

-- `if (lastBlockNumber > 0) fromBlock = lastBlockNumber`
abbrev pub cached_block : Option CacheValue → ℕ
cached_block none = 0
cached_block (some (flag b)) = 0
cached_block (some (number n)) = n

-- The block behind the latest stored event; a stored event without a number gives NaN, which counts
-- as 0.
abbrev pub block_behind : ℕ → Option (Option ℕ) → ℕ
block_behind default_start none = default_start
block_behind default_start (some none) = 0
block_behind default_start (some (some n)) = n + 1

-- `default_start` is Number(DEFAULT_START_BLOCK_NUMBER), or 0 if that is no number.
module _ {W : Type 0} (o : Outside W) (default_start : ℕ) where
  unfoldable pub cached_from_block : Io W ℕ
  cached_from_block =
      try_catch (do cached ← o.cache.get cache_last_scan_block_number; pure (cached_block cached))
        (λ e. pure 0)

  -- `if (!fromBlock) { … }`
  unfoldable pub stored_from_block : ℕ → Io W ℕ
  stored_from_block (suc n) = pure (suc n)
  stored_from_block zero = do
    latest ← o.event_logs.latest_block_number
    pure (block_behind default_start latest)

  unfoldable pub first_block : Io W ℕ
  first_block = do cached ← cached_from_block; stored_from_block cached

  -- The body of `eventLogs.forEach`.
  unfoldable pub collect : List EventLogWeb3 → Collected → Collected
  collect [] c = c
  collect (log ∷ logs) c = collect logs (record {
    addresses = c.addresses ++ transfer_addresses log;
    result = c.result ++ parse_event_log o.library.is_ethereum_address log bsc ∷ [];
  })

  -- The body of the `while` for one range.
  unfoldable pub scan_range : ℕ → ℕ → Collected → Io W Collected
  scan_range from to c = do
    logs ← o.contract.get_past_events (range_query from to)
    o.timer.sleep 500
    pure (collect logs c)

  -- `while (fromBlock <= currentBlockNumber)` on fuel; `none` means that the fuel has run out.
  unfoldable pub scan_rounds : ℕ → ℕ → ℕ → Collected → Io W (Option Collected)
  scan_rounds zero from current c w = ok none w
  scan_rounds (suc fuel) from current c w = elim (leb from current) [
    | false ↦ ok (some c) w
    | true ↦
        bind (scan_range from (clip (from + max_block_range) current) c w)
          (λ c'. scan_rounds fuel (from + max_block_range) current c')
  ]

  -- `if (xs.length > 0) await this.eventLogQueue.addBulk(…)`
  unfoldable pub add_jobs : List Job → Io W (Unit {0})
  add_jobs [] = pure tt
  add_jobs (job ∷ jobs) = o.queue.add_bulk (job ∷ jobs)

  unfoldable pub queue_collected : Collected → Io W (Unit {0})
  queue_collected c = do
    add_jobs (map update_balance (unique c.addresses))
    add_jobs (map insert_event_log c.result)

  unfoldable pub finish_scan : ℕ → Option Collected → Io W Bool
  finish_scan current none = pure false
  finish_scan current (some c) = do
    queue_collected c
    o.cache.set cache_last_scan_block_number (number current) (some 0)
    pure true

  -- The body of the `try`; `false` means that the fuel has run out.
  unfoldable pub scan_steps : ℕ → Io W Bool
  scan_steps fuel = do
    from ← first_block
    current ← o.contract.block_number
    collected ← scan_rounds fuel from current (record { addresses = []; result = [] })
    finish_scan current collected

  unfoldable pub scan_event_log : ℕ → Io W Bool
  scan_event_log fuel = try_catch (scan_steps fuel) (λ e. pure true)
