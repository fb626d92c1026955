-- ===== src/EventLogs/CursorStore.antt =====
-- On what the steps leave alone of `scanEventLog`, src/modules/event-logs/event-logs.service.ts.
use mathlib.Core.List.{Memᴰ}
use mathlib.Core.List.Memᴰ
use vnst_be.Base.{
  Io, pure, ◌>>=◌, ℕ, suc, ◌≡◌, ◌⊎◌, sym, subst, Option, some, List, [], ◌∷◌, ◌++◌, map, Text, ok,
  end_of, Leaves, pure-Leaves, bind-Leaves, catch-Leaves, zero, bind-eq-ok,
}
use vnst_be.External.Infra.{Outside, CacheValue, Job, update_balance, insert_event_log}
use vnst_be.EventLogs.Parse.{Collected, unique, cache_last_scan_block_number}
use vnst_be.EventLogs.Scan.{
  cached_block, cached_from_block, stored_from_block, first_block, add_jobs, queue_collected,
  block_behind,
}

-- `cursor` is what is stored as the block scanned last, and `held` the jobs that the queue holds. The
-- queue, the database and the cache may throw at any time. Jobs that were added are held; only the
-- cache's `set` changes the cursor, to the new value or, where it fails, perhaps not.
pub record IsCursor {W : Type 0} (o : Outside W) (cursor : W → Option CacheValue)
    (held : W → List Job) : Type 0 where
  pub gets : (key : Text) → Leaves cursor (o.cache.get key)
  pub finds : Leaves cursor o.event_logs.latest_block_number
  pub heights : Leaves cursor o.contract.block_number
  pub adds : (jobs : List Job) → Leaves cursor (o.queue.add_bulk jobs)
  pub holds :
      (jobs : List Job) (w v : W) → o.queue.add_bulk jobs w ≡ ok tt v → held v ≡ held w ++ jobs
  pub sets :
      (value : CacheValue) (w : W)
      → let v = end_of (o.cache.set cache_last_scan_block_number value (some 0) w) in
        (held v ≡ held w) × ((cursor v ≡ cursor w) ⊎ (cursor v ≡ some value))

module _ {W : Type 0} (o : Outside W) (default_start : ℕ) {cursor : W → Option CacheValue}
    {held : W → List Job} (kept : IsCursor o cursor held) where
  stored_from_block-Leaves : (n : ℕ) → Leaves cursor (stored_from_block o default_start n)
  unfolding stored_from_block
  stored_from_block-Leaves zero =
      bind-Leaves cursor o.event_logs.latest_block_number _ kept.finds
        (λ latest. pure-Leaves cursor (block_behind default_start latest))
  stored_from_block-Leaves (suc n) = pure-Leaves cursor (suc n)

  cached_from_block-Leaves : Leaves cursor (cached_from_block o default_start)
  unfolding cached_from_block
  cached_from_block-Leaves =
      let read : Io W ℕ =
        o.cache.get cache_last_scan_block_number >>= λ cached. pure (cached_block cached) in
      let reads : Leaves cursor read =
        bind-Leaves cursor (o.cache.get cache_last_scan_block_number)
          (λ cached. pure (cached_block cached)) (kept.gets _)
          (λ cached. pure-Leaves cursor (cached_block cached)) in
      catch-Leaves cursor read 0 reads

  pub first_block-Leaves : Leaves cursor (first_block o default_start)
  unfolding first_block
  first_block-Leaves =
      bind-Leaves cursor (cached_from_block o default_start) (stored_from_block o default_start)
        cached_from_block-Leaves stored_from_block-Leaves

  add_jobs-Leaves : (jobs : List Job) → Leaves cursor (add_jobs o default_start jobs)
  unfolding add_jobs
  add_jobs-Leaves [] = pure-Leaves cursor tt
  add_jobs-Leaves (job ∷ jobs) = kept.adds (job ∷ jobs)

  pub queue_collected-Leaves : (c : Collected) → Leaves cursor (queue_collected o default_start c)
  unfolding queue_collected
  queue_collected-Leaves c =
      bind-Leaves cursor (add_jobs o default_start (map update_balance (unique c.addresses))) _
        (add_jobs-Leaves _) (λ _. add_jobs-Leaves (map insert_event_log c.result))

  add_jobs-held :
      (jobs : List Job) (w v : W) (job : Job)
      → add_jobs o default_start jobs w ≡ ok tt v
      → Memᴰ job jobs
      → Memᴰ job (held v)
  unfolding add_jobs
  add_jobs-held [] w v job e m = elim m [ ]
  add_jobs-held (j ∷ jobs) w v job e m =
      subst (Memᴰ job) (sym (kept.holds (j ∷ jobs) w v e)) (Memᴰ.append_right (held w) m)

  pub queue_collected-held :
      (c : Collected) (w v : W) (job : Job)
      → queue_collected o default_start c w ≡ ok tt v
      → Memᴰ job (map insert_event_log c.result)
      → Memᴰ job (held v)
  unfolding queue_collected
  queue_collected-held c w v job e m =
      let (_, u, first, second) =
        bind-eq-ok (add_jobs o default_start (map update_balance (unique c.addresses)) w) _ e in
      add_jobs-held (map insert_event_log c.result) u v job second m
