-- ===== src/EventLogs/Workers.antt =====
-- src/modules/event-logs/event-logs.consumer.ts: the job "insertEventLog" is shared by five workers
-- (`concurrency: 5`), which may be between the update of the collection and the notification at one
-- time. A step is a part of a job that runs without a pause: the update with the test of its
-- `upsertedId`, or the notification of an event whose update has returned one.
use vnst_be.Base.{
  true, ℕ, zero, suc, Option, none, some, List, [], ◌∷◌, get_elem?, Text, Result, ok, thrown,
  end_of,
}
use vnst_be.Schema.EventLog.{EventLog, FieldValue, log_key}
use vnst_be.External.Infra.{Outside}
use vnst_be.EventLogs.Consumer.{event_kind, notify_if}

-- Jobs may be delivered at any time and again; a waiting event goes on by its place.
pub data WorkerStep : Type 0 where
  deliver : EventLog → WorkerStep
  resume : ℕ → WorkerStep

-- The events that wait for their notification, and all that have been taken up for one.
pub record Workers (W : Type 0) : Type 0 where
  pub waiting : List EventLog
  pub taken : List EventLog
  pub world : W

abbrev pub remove : {A : Type 0} → ℕ → List A → List A
remove n [] = []
remove zero (x ∷ xs) = xs
remove (suc n) (x ∷ xs) = x ∷ remove n xs

module _ {W : Type 0} (o : Outside W) (number : Option FieldValue → ℕ) where
  -- After the update: a failed job ends, and an event that was there is not notified of.
  unfoldable pub updated : EventLog → Workers W → Result W (Option Text) → Workers W
  updated log s (ok none v) = record s { world = v }
  updated log s (ok (some id) v) = record {
    waiting = log ∷ s.waiting;
    taken = log ∷ s.taken;
    world = v;
  }
  updated log s (thrown e v) = record s { world = v }

  unfoldable pub resumed : ℕ → Workers W → Option EventLog → Workers W
  resumed i s none = s
  resumed i s (some log) = record s {
    waiting = remove i s.waiting;
    world = end_of (notify_if o number log (some []) (event_kind log.event) s.world);
  }

  unfoldable pub worker_step : Workers W → WorkerStep → Workers W
  worker_step s (deliver log) =
      updated log s (o.event_logs.update_one (log_key log) log true s.world)
  worker_step s (resume i) = resumed i s (get_elem? s.waiting i)

  unfoldable pub run_workers : Workers W → List WorkerStep → Workers W
  run_workers s [] = s
  run_workers s (step ∷ steps) = run_workers (worker_step s step) steps
