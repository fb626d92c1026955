-- ===== src/EventLogs/DeliveryLaws.antt =====
-- On the jobs that a scan queues and what the consumer stores of them, src/modules/event-logs.
use mathlib.Core.List.{Memᴰ}
use mathlib.Core.List.Memᴰ
use vnst_be.Base.{
  ok-injective, Leaves, bind-Leaves, catch-Leaves, pure-Leaves, end_of, ℕ, suc, ◌+◌, ◌*◌, ◌≤◌, ◌<◌,
  ◌≡◌, refl, sym, ap, ◌∙◌, subst, inl, inr, Bool, true, Option, none, some, List, [], ◌∷◌, map,
  Text, text_eq, trim, to_lower_case, ok, pure, ◌>>=◌, for_each, Bool-cases,
}
use vnst_be.Schema.Wallet.{Wallet}
use vnst_be.Schema.Amount.{Amount, from_wei}
use vnst_be.Schema.EventLog.{EventLog, FieldValue, LogKey, log_key}
use vnst_be.External.Models.{CreateWallet}
use vnst_be.External.Infra.{Outside, EventLogWeb3, Job, update_balance, insert_event_log}
use vnst_be.Contract.{get_balance_of}
use vnst_be.Wallets.Service.{find_by_wallet_address, by_address, create}
use vnst_be.EventLogs.Parse.{Collected, unique}
use vnst_be.EventLogs.Scan.{scan_rounds, queue_collected}
use vnst_be.EventLogs.QueueLaws.{
  process, process_step, process_ends, jobs_of, IsQueue, queue_collected-held,
}
use vnst_be.EventLogs.Consumer.{
  zero_address, event_kind, store_balance, update_balance_of, update_balance_job,
  insert_event_log_job, run_job,
}
use vnst_be.EventLogs.OnceLaws.{IsEventStore, notify_if-Leaves}
use vnst_be.EventLogs.RoundLaws.{IsNode, parse, scan_rounds_complete}

-- The collection of events takes every update and loses nothing, and the operations on wallets and
-- on the contract leave it alone.
pub record IsLasting {W : Type 0} (o : Outside W) (known : LogKey → W → Bool) : Type 0 where
  pub store : IsEventStore o known
  pub accepts :
      (log : EventLog) (w : W)
      → (upserted : Option Text) × (v : W) × (o.event_logs.update_one (log_key log) log true w
          ≡ ok upserted v)
  pub lasts :
      (key : LogKey) (log : EventLog) (w : W)
      → known key w ≡ true
      → known key (end_of (o.event_logs.update_one (log_key log) log true w)) ≡ true
  pub saves :
      (key : LogKey) (wallet : Wallet) (w : W)
      → known key (end_of (o.wallets.save wallet w)) ≡ known key w
  pub adds :
      (key : LogKey) (wallet : CreateWallet) (w : W)
      → known key (end_of (o.wallets.create wallet w)) ≡ known key w
  pub reads :
      (key : LogKey) (address : Text) (w : W)
      → known key (end_of (o.contract.balance_of address w)) ≡ known key w

module _ {W : Type 0} (o : Outside W) (number : Option FieldValue → ℕ) {known : LogKey → W → Bool}
    (lasting : IsLasting o known) where
  module _ (key : LogKey) where
    store_balance-Leaves :
        (address : Text) (balance : Amount) (wallet : Option Wallet)
        → Leaves (known key) (store_balance o address balance wallet)
    unfolding store_balance create
    store_balance-Leaves address balance none =
        bind-Leaves (known key) (o.wallets.create _) (λ _. pure tt) (lasting.adds key _)
          (λ _. pure-Leaves (known key) tt)
    store_balance-Leaves address balance (some wallet) =
        bind-Leaves (known key) (o.wallets.save _) (λ _. pure tt) (lasting.saves key _)
          (λ _. pure-Leaves (known key) tt)

    update_balance_of-Leaves : (address : Text) → Leaves (known key) (update_balance_of o address)
    unfolding update_balance_of get_balance_of find_by_wallet_address
    update_balance_of-Leaves address w = elim (Bool-cases (text_eq address zero_address)) [
      | inl none_given ↦ rw none_given refl
      | inr other ↦ rw other (
          catch-Leaves (known key)
            (get_balance_of o address
              >>= (λ balance. find_by_wallet_address o address >>= store_balance o address balance))
            tt
            (bind-Leaves (known key) (get_balance_of o address) _
              (bind-Leaves (known key) (o.contract.balance_of address) _ (lasting.reads key address)
                (λ balance. pure-Leaves (known key) (from_wei balance)))
              (λ balance.
                bind-Leaves (known key) (find_by_wallet_address o address)
                  (store_balance o address balance) (lasting.store.finds key (by_address address))
                  (store_balance-Leaves address balance)))
            w)
    ]

    pub update_balance_job-Leaves :
        (job : Option Text) → Leaves (known key) (update_balance_job o job)
    unfolding update_balance_job
    update_balance_job-Leaves none w = refl
    update_balance_job-Leaves (some job) w = update_balance_of-Leaves (trim (to_lower_case job)) w

    pub insert_event_log_job-end :
        (log : EventLog) (w : W)
        → known key (end_of (insert_event_log_job o number log w))
          ≡ known key (end_of (o.event_logs.update_one (log_key log) log true w))
    unfolding insert_event_log_job
    insert_event_log_job-end log w =
        let (upserted, v, e) = lasting.accepts log w in
        rw e (notify_if-Leaves o number lasting.store key log upserted (event_kind log.event) v)

    run_job-lasts :
        (job : Job) (w : W)
        → known key w ≡ true
        → known key (end_of (run_job o number job w)) ≡ true
    unfolding run_job
    run_job-lasts (update_balance address) w h = update_balance_job-Leaves address w ∙ h
    run_job-lasts (insert_event_log log) w h =
        insert_event_log_job-end log w ∙ lasting.lasts key log w h

    pub process-lasts :
        (jobs : List Job) (w : W)
        → known key w ≡ true
        → (v : W) × (process (run_job o number) jobs w ≡ ok tt v) × (known key v ≡ true)
    unfolding for_each
    process-lasts [] w h = (w, refl, h)
    process-lasts (job ∷ jobs) w h =
        let after = end_of (run_job o number job w) in
        let (v, done, kept) = process-lasts jobs after (run_job-lasts job w h) in
        (v, process_step (run_job o number) job jobs w ∙ done, kept)

  -- A queued event is known after the jobs.
  pub process-stores :
      (jobs : List Job) (log : EventLog) (w : W)
      → Memᴰ (insert_event_log log) jobs
      → (v : W) × (process (run_job o number) jobs w ≡ ok tt v) × (known (log_key log) v ≡ true)
  unfolding run_job
  process-stores [] log w m = elim m [ ]
  process-stores (job ∷ jobs) log w (Memᴰ.head same) =
      let (upserted, v, e) = lasting.accepts log w in
      let stored : known (log_key log) (end_of (insert_event_log_job o number log w)) ≡ true =
        insert_event_log_job-end (log_key log) log w
        ∙ ap (λ r. known (log_key log) (end_of r)) e
        ∙ lasting.store.stores log upserted w v e in
      let here : known (log_key log) (end_of (run_job o number job w)) ≡ true =
        subst (λ j. known (log_key log) (end_of (run_job o number j w)) ≡ true) same stored in
      let (u, done, kept) =
        process-lasts (log_key log) jobs (end_of (run_job o number job w)) here in
      (u, process_step (run_job o number) job jobs w ∙ done, kept)
  process-stores (job ∷ jobs) log w (Memᴰ.tail later) =
      let (u, done, kept) = process-stores jobs log (end_of (run_job o number job w)) later in
      (u, process_step (run_job o number) job jobs w ∙ done, kept)

  module _ (default_start : ℕ) (at_block : ℕ → List EventLogWeb3)
      (node : IsNode o default_start at_block) {held : W → List Job} (queue : IsQueue o held)
      (deliver : List Job → List Job)
      (delivers : (jobs : List Job) (job : Job) → Memᴰ job jobs → Memᴰ job (deliver jobs)) where
    -- If the node answers with the events of its blocks, the queue holds what it is given and delivers
    -- it, in any order and any number of times, and the database takes what it is given and keeps it,
    -- then the scan of the blocks from `from` to `current` ends, given a round for each range and one
    -- more; its jobs are queued; and once the delivered jobs have been run, whichever of them fail,
    -- every event of these blocks is stored under its key.
    pub scan-process-stores :
        (n from current : ℕ) (w : W)
        → current < from + n * 5000
        → (r : Collected) × (q : W) × (v : W) × (scan_rounds o default_start
              (suc n)
              from
              current
              (record { addresses = []; result = [] })
              w
            ≡ ok (some r) w)
          × (queue_collected o default_start r w ≡ ok tt q)
          × (process (run_job o number) (deliver (held q)) q ≡ ok tt v)
          × ((b : ℕ) (log : EventLogWeb3)
              → from ≤ b
              → b ≤ current
              → Memᴰ log (at_block b)
              → known (log_key (parse o default_start at_block log)) v ≡ true)
    scan-process-stores n from current w enough =
        let (r, done, complete, _) =
          scan_rounds_complete o default_start at_block node n from current w enough in
        let (q, queued, holds) = queue_collected-held o default_start queue r w in
        let (v, run) = process_ends (run_job o number) (deliver (held q)) q in
        (
          r,
          q,
          v,
          done,
          queued,
          run,
          λ b log lo hi m.
              let event = parse o default_start at_block log in
              let collected : Memᴰ (insert_event_log event) (jobs_of r) =
                Memᴰ.append_right (map update_balance (unique r.addresses))
                  (Memᴰ.map insert_event_log (complete b log lo hi m)) in
              let held_there : Memᴰ (insert_event_log event) (held q) =
                subst (λ jobs. Memᴰ (insert_event_log event) jobs) (sym holds)
                  (Memᴰ.append_right (held w) collected) in
              let (u, run', kept) =
                process-stores (deliver (held q)) event q
                  (delivers (held q) (insert_event_log event) held_there) in
              subst (λ x. known (log_key event) x ≡ true) (ok-injective _ run' run) kept,
        )
