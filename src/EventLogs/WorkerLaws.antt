-- ===== src/EventLogs/WorkerLaws.antt =====
-- On the workers of the job "insertEventLog", src/modules/event-logs/event-logs.consumer.ts.
use vnst_be.Base.{
  bind, ℕ, ◌≡◌, ◌≢◌, refl, sym, ap, ◌∙◌, subst, Bool, true, Option, none, some, List, [], ◌∷◌, Text,
  All, get_elem?, Result, ok, thrown, end_of,
}
use vnst_be.Schema.EventLog.{EventLog, FieldValue, LogKey, log_key}
use vnst_be.Schema.Notification.{NotificationType}
use vnst_be.External.Infra.{Outside}
use vnst_be.EventLogs.Consumer.{event_kind, notify_if, insert_event_log_job}
use vnst_be.EventLogs.OnceLaws.{IsEventStore, notify_if-Leaves}
use vnst_be.EventLogs.Workers.{
  WorkerStep, deliver, resume, Workers, updated, resumed, worker_step, run_workers,
}

-- No two of the events have one key.
abbrev pub Distinct : List EventLog → Type 0
Distinct [] = Unit {0}
Distinct (log ∷ logs) = All (λ other. log_key other ≢ log_key log) logs × Distinct logs

All-map :
    {A : Type 0} {P Q : A → Type 0} (f : (a : A) → P a → Q a) (xs : List A) → All P xs → All Q xs
All-map f [] h = tt
All-map f (x ∷ xs) h = (f x h.0, All-map f xs h.1)

module _ {W : Type 0} (o : Outside W) (number : Option FieldValue → ℕ) (log : EventLog)
    (w : W) where
  abbrev idle : Workers W
  idle = record { waiting = []; taken = []; world = w }

  any_identifier :
      (id : Text) (kind : Option NotificationType)
      → notify_if o number log (some []) kind ≡ notify_if o number log (some id) kind
  any_identifier id none = refl
  any_identifier id (some kind) = refl

  updated-resumed :
      (r : Result W (Option Text))
      → let s = updated o number log idle r in
        (resumed o number 0 s (get_elem? s.waiting 0)).world
        ≡ end_of (bind r (λ upserted. notify_if o number log upserted (event_kind log.event)))
  unfolding updated resumed
  updated-resumed (thrown x v) = refl
  updated-resumed (ok none v) = refl
  updated-resumed (ok (some id) v) =
      ap (λ m. end_of (m v)) (any_identifier id (event_kind log.event))

  -- A worker that is alone does what the job does.
  deliver-resume :
      (run_workers o number idle (deliver log ∷ resume 0 ∷ [])).world
      ≡ end_of (insert_event_log_job o number log w)
  unfolding run_workers worker_step insert_event_log_job
  deliver-resume = updated-resumed (o.event_logs.update_one (log_key log) log true w)

module _ {W : Type 0} (o : Outside W) (number : Option FieldValue → ℕ) {known : LogKey → W → Bool}
    (store : IsEventStore o known)
    (lasts : (key : LogKey) (log : EventLog) (w : W)
      → known key w ≡ true
      → known key (end_of (o.event_logs.update_one (log_key log) log true w)) ≡ true) where
  -- The events that were taken up are stored, and no two of them have one key.
  abbrev IsTaken : Workers W → Type 0
  IsTaken s = All (λ log. known (log_key log) s.world ≡ true) s.taken × Distinct s.taken

  update-lasts :
      (log : EventLog) (s : Workers W) (r : Result W (Option Text))
      → o.event_logs.update_one (log_key log) log true s.world ≡ r
      → All (λ other. known (log_key other) s.world ≡ true) s.taken
      → All (λ other. known (log_key other) (end_of r) ≡ true) s.taken
  update-lasts log s r e =
      All-map
        (λ other h.
          ap (λ q. known (log_key other) (end_of q)) (sym e) ∙ lasts (log_key other) log s.world h)
        s.taken

  -- An update that reports a new event was not of one that is stored.
  update-fresh :
      (log : EventLog) (s : Workers W) (id : Text) (v : W)
      → o.event_logs.update_one (log_key log) log true s.world ≡ ok (some id) v
      → (other : EventLog) → known (log_key other) s.world ≡ true
      → log_key other ≢ log_key log
  update-fresh log s id v e other h same =
      let there : known (log_key log) s.world ≡ true =
        subst (λ key. known key s.world ≡ true) same h in
      let (u, again) = store.repeats log s.world there in
      let clash : ok (some id) v ≡ ok none u = sym e ∙ again in cc

  updated-IsTaken :
      (log : EventLog) (s : Workers W) (r : Result W (Option Text))
      → o.event_logs.update_one (log_key log) log true s.world ≡ r
      → IsTaken s
      → IsTaken (updated o number log s r)
  unfolding updated
  updated-IsTaken log s (thrown x v) e (stored, distinct) =
      (update-lasts log s (thrown x v) e stored, distinct)
  updated-IsTaken log s (ok none v) e (stored, distinct) =
      (update-lasts log s (ok none v) e stored, distinct)
  updated-IsTaken log s (ok (some id) v) e (stored, distinct) = (
    (store.stores log (some id) s.world v e, update-lasts log s (ok (some id) v) e stored),
    (All-map (update-fresh log s id v e) s.taken stored, distinct),
  )

  resumed-IsTaken :
      (i : ℕ) (s : Workers W) (log : Option EventLog)
      → IsTaken s
      → IsTaken (resumed o number i s log)
  unfolding resumed
  resumed-IsTaken i s none h = h
  resumed-IsTaken i s (some log) (stored, distinct) = (
    All-map
        (λ other h.
          notify_if-Leaves o number store (log_key other) log (some []) (event_kind log.event)
            s.world
          ∙ h)
        s.taken stored,
    distinct,
  )

  worker_step-IsTaken :
      (s : Workers W) (step : WorkerStep) → IsTaken s → IsTaken (worker_step o number s step)
  unfolding worker_step
  worker_step-IsTaken s (deliver log) h =
      updated-IsTaken log s (o.event_logs.update_one (log_key log) log true s.world) refl h
  worker_step-IsTaken s (resume i) h = resumed-IsTaken i s (get_elem? s.waiting i) h

  run_workers-IsTaken :
      (steps : List WorkerStep) (s : Workers W) → IsTaken s → IsTaken (run_workers o number s steps)
  unfolding run_workers
  run_workers-IsTaken [] s h = h
  run_workers-IsTaken (step ∷ steps) s h =
      run_workers-IsTaken steps (worker_step o number s step) (worker_step-IsTaken s step h)

  -- If the collection keeps what is stored in it, then however the workers' steps are interleaved and
  -- however often jobs are delivered, no two events with one key are ever taken up for a
  -- notification, and all that are taken up are stored.
  pub run_workers-Distinct :
      (steps : List WorkerStep) (w : W)
      → let end = run_workers o number (record { waiting = []; taken = []; world = w }) steps in
        Distinct end.taken × All (λ log. known (log_key log) end.world ≡ true) end.taken
  run_workers-Distinct steps w =
      let (stored, distinct) =
        run_workers-IsTaken steps (record { waiting = []; taken = []; world = w }) (tt, tt) in
      (distinct, stored)
