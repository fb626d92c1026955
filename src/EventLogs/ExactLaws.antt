-- ===== src/EventLogs/ExactLaws.antt =====
-- On what a scan adds to the collection of events, src/modules/event-logs.
use mathlib.Core.List.{Memᴰ}
use mathlib.Core.List.Memᴰ
use vnst_be.Base.{
  ok-injective, bind-Leaves, for_each, ℕ, suc, ◌+◌, ◌*◌, ◌≤◌, ◌<◌, ◌≡◌, ◌↔◌, ◌⊎◌, refl, sym, ap,
  ◌∙◌, subst, inl, inr, Bool, true, Option, some, List, [], ◌∷◌, ◌++◌, map, Text, ok, end_of,
  Leaves,
}
use vnst_be.Schema.EventLog.{EventLog, FieldValue, LogKey, log_key}
use vnst_be.External.Infra.{Outside, EventLogWeb3, Job, update_balance, insert_event_log}
use vnst_be.EventLogs.Parse.{Collected, unique}
use vnst_be.EventLogs.Scan.{scan_rounds, add_jobs, queue_collected}
use vnst_be.EventLogs.Consumer.{run_job}
use vnst_be.EventLogs.QueueLaws.{
  process, process_step, process_ends, jobs_of, IsQueue, queue_collected-held,
}
use vnst_be.EventLogs.RoundLaws.{IsNode, parse, scan_rounds_complete}
use vnst_be.EventLogs.DeliveryLaws.{
  IsLasting, update_balance_job-Leaves, insert_event_log_job-end, process-lasts, process-stores,
}

-- Besides, an update adds no key but that of its event, and adding jobs to the queue adds none.
pub record IsExact {W : Type 0} (o : Outside W) (known : LogKey → W → Bool) : Type 0 where
  pub lasting : IsLasting o known
  pub adds_own :
      (key : LogKey) (log : EventLog) (w : W)
      → known key (end_of (o.event_logs.update_one (log_key log) log true w)) ≡ true
      → (known key w ≡ true) ⊎ (log_key log ≡ key)
  pub queues : (key : LogKey) (jobs : List Job) → Leaves (known key) (o.queue.add_bulk jobs)

-- The job stores an event under the key.
abbrev pub IsFor : LogKey → Job → Type 0
IsFor key (update_balance address) = ⊥
IsFor key (insert_event_log log) = log_key log ≡ key

module _ {W : Type 0} (o : Outside W) (number : Option FieldValue → ℕ) {known : LogKey → W → Bool}
    (exact : IsExact o known) (key : LogKey) where
  run_job-known :
      (job : Job) (w : W)
      → known key (end_of (run_job o number job w)) ≡ true
      → (known key w ≡ true) ⊎ IsFor key job
  unfolding run_job
  run_job-known (update_balance address) w h =
      inl (sym (update_balance_job-Leaves o number exact.lasting key address w) ∙ h)
  run_job-known (insert_event_log log) w h =
      exact.adds_own key log w (sym (insert_event_log_job-end o number exact.lasting key log w) ∙ h)

  process-known :
      (jobs : List Job) (w v : W)
      → process (run_job o number) jobs w ≡ ok tt v
      → known key v ≡ true
      → (known key w ≡ true) ⊎ ((job : Job) × Memᴰ job jobs × IsFor key job)
  unfolding for_each
  process-known [] w v e h = let same : w ≡ v = cc in inl (ap (known key) same ∙ h)
  process-known (job ∷ jobs) w v e h =
      let rest = sym (process_step (run_job o number) job jobs w) ∙ e in
      elim (process-known jobs (end_of (run_job o number job w)) v rest h) [
        | inr (j, m, f) ↦ inr (j, Memᴰ.tail m, f)
        | inl before ↦ elim (run_job-known job w before) [
          | inl old ↦ inl old
          | inr own ↦ inr (job, Memᴰ.head refl, own)
        ]
      ]

module _ (key : LogKey) where
  no-update_balance :
      (xs : List (Option Text)) (job : Job) → Memᴰ job (map update_balance xs) → IsFor key job → ⊥
  no-update_balance [] job m f = elim m [ ]
  no-update_balance (x ∷ xs) job (Memᴰ.head e) f = subst (IsFor key) e f
  no-update_balance (x ∷ xs) job (Memᴰ.tail m) f = no-update_balance xs job m f

  insert_event_log-Mem :
      (logs : List EventLog) (job : Job)
      → Memᴰ job (map insert_event_log logs)
      → IsFor key job
      → (log : EventLog) × Memᴰ log logs × (log_key log ≡ key)
  insert_event_log-Mem [] job m f = elim m [ ]
  insert_event_log-Mem (log ∷ logs) job (Memᴰ.head e) f =
      (log, Memᴰ.head refl, subst (IsFor key) e f)
  insert_event_log-Mem (log ∷ logs) job (Memᴰ.tail m) f =
      let (other, n, same) = insert_event_log-Mem logs job m f in (other, Memᴰ.tail n, same)

  jobs_of-IsFor :
      (c : Collected) (job : Job)
      → Memᴰ job (jobs_of c)
      → IsFor key job
      → (log : EventLog) × Memᴰ log c.result × (log_key log ≡ key)
  jobs_of-IsFor c job m f = elim (Memᴰ.append_cases (map update_balance (unique c.addresses)) m) [
    | inl update ↦ absurd (no-update_balance (unique c.addresses) job update f)
    | inr insert ↦ insert_event_log-Mem c.result job insert f
  ]

module _ {W : Type 0} (o : Outside W) {known : LogKey → W → Bool} (exact : IsExact o known)
    (default_start : ℕ) (key : LogKey) where
  add_jobs-Leaves : (jobs : List Job) → Leaves (known key) (add_jobs o default_start jobs)
  unfolding add_jobs
  add_jobs-Leaves [] = λ w. refl
  add_jobs-Leaves (job ∷ jobs) = exact.queues key (job ∷ jobs)

  queue_collected-Leaves : (c : Collected) → Leaves (known key) (queue_collected o default_start c)
  unfolding queue_collected
  queue_collected-Leaves c =
      bind-Leaves (known key) (add_jobs o default_start (map update_balance (unique c.addresses)))
        (λ _. add_jobs o default_start (map insert_event_log c.result))
        (add_jobs-Leaves (map update_balance (unique c.addresses)))
        (λ _. add_jobs-Leaves (map insert_event_log c.result))

  queue_collected-known :
      (c : Collected) (w q : W)
      → queue_collected o default_start c w ≡ ok tt q
      → known key q ≡ known key w
  queue_collected-known c w q e =
      ap (λ r. known key (end_of r)) (sym e) ∙ queue_collected-Leaves c w

module _ {W : Type 0} (o : Outside W) (default_start : ℕ) (at_block : ℕ → List EventLogWeb3) where
  -- An event of the blocks has this key.
  abbrev pub IsScanned : ℕ → ℕ → LogKey → Type 0
  IsScanned from current key =
      (b : ℕ) × (log : EventLogWeb3) × (from ≤ b)
      × (b ≤ current)
      × Memᴰ log (at_block b)
      × (log_key (parse o default_start at_block log) ≡ key)

module _ {W : Type 0} (o : Outside W) (number : Option FieldValue → ℕ) {known : LogKey → W → Bool}
    (exact : IsExact o known) (default_start : ℕ) (at_block : ℕ → List EventLogWeb3)
    (node : IsNode o default_start at_block) {held : W → List Job} (queue : IsQueue o held)
    (deliver : List Job → List Job)
    (delivers : (jobs : List Job) (job : Job) → Memᴰ job jobs ↔ Memᴰ job (deliver jobs)) where
  -- If the node answers with the events of its blocks, an empty queue holds what it is given and
  -- delivers that and nothing else, in any order and any number of times, and the collection takes
  -- every event under its own key and keeps it, then the scan of the blocks from `from` to `current`
  -- ends, given a round for each range and one more; its jobs are queued; and once the delivered jobs
  -- have been run, whichever of them fail, exactly those keys are stored that were stored before or
  -- are of an event of these blocks.
  pub scan-process-IsScanned :
      (n from current : ℕ) (w : W)
      → current < from + n * 5000
      → held w ≡ []
      → (r : Collected) × (q : W) × (v : W) × (scan_rounds o default_start
            (suc n)
            from
            current
            (record { addresses = []; result = [] })
            w
          ≡ ok (some r) w)
        × (queue_collected o default_start r w ≡ ok tt q)
        × (process (run_job o number) (deliver (held q)) q ≡ ok tt v)
        × ((key : LogKey)
            → (known key v ≡ true)
              ↔ ((known key w ≡ true) ⊎ IsScanned o default_start at_block from current key))
  scan-process-IsScanned n from current w enough idle =
      let (r, done, complete, sound) =
        scan_rounds_complete o default_start at_block node n from current w enough in
      let (q, queued, holds) = queue_collected-held o default_start queue r w in
      let (v, run) = process_ends (run_job o number) (deliver (held q)) q in
      let jobs : held q ≡ jobs_of r = holds ∙ ap (λ l. l ++ jobs_of r) idle in
      (
        r,
        q,
        v,
        done,
        queued,
        run,
        λ key.
            let same = queue_collected-known o exact default_start key r w q queued in
            (
              λ after. elim (process-known o number exact key (deliver (held q)) q v run after) [
                | inl before ↦ inl (sym same ∙ before)
                | inr (job, m, f) ↦
                    let there : Memᴰ job (jobs_of r) =
                      subst (λ l. Memᴰ job l) jobs ((delivers (held q) job).1 m) in
                    let (event, collected, own) = jobs_of-IsFor key r job there f in
                    let (b, log, lo, hi, at, parsed) = sound event collected in
                    inr (b, log, lo, hi, at, ap log_key parsed ∙ own)
              ],
              λ before. elim before [
                | inl old ↦
                    let (u, run', kept) =
                      process-lasts o number exact.lasting key (deliver (held q)) q (same ∙ old) in
                    subst (λ x. known key x ≡ true) (ok-injective _ run' run) kept
                | inr (b, log, lo, hi, at, own) ↦
                    let event = parse o default_start at_block log in
                    let collected : Memᴰ (insert_event_log event) (jobs_of r) =
                      Memᴰ.append_right (map update_balance (unique r.addresses))
                        (Memᴰ.map insert_event_log (complete b log lo hi at)) in
                    let delivered =
                      (delivers (held q) (insert_event_log event)).0
                        (subst (λ l. Memᴰ (insert_event_log event) l) (sym jobs) collected) in
                    let (u, run', kept) =
                      process-stores o number exact.lasting (deliver (held q)) event q delivered in
                    subst (λ x. known key x ≡ true) (ok-injective _ run' run)
                      (subst (λ k. known k u ≡ true) own kept)
              ],
            ),
      )
