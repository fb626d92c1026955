-- ===== src/EventLogs/QueueLaws.antt =====
-- On the queue "eventLog", src/modules/event-logs: what a scan adds and what a worker runs.
use mathlib.Core.List.{append-nil, append_assoc}
use vnst_be.Base.{
  end_of, ℕ, ◌≡◌, refl, sym, ap, ◌∙◌, inl, inr, List, [], ◌∷◌, ◌++◌, map, Io, ok, detach, for_each,
  Result-cases,
}
use vnst_be.External.Infra.{Outside, Job, update_balance, insert_event_log}
use vnst_be.EventLogs.Parse.{Collected, unique}
use vnst_be.EventLogs.Scan.{add_jobs, queue_collected}

-- The jobs one after the other; one that fails is set aside.
abbrev pub process : {W : Type 0} → (Job → Io W (Unit {0})) → List Job → Io W (Unit {0})
process run jobs = for_each jobs (λ job. detach (run job))

pub process_step :
    {W : Type 0} (run : Job → Io W (Unit {0})) (job : Job) (jobs : List Job) (w : W)
    → process run (job ∷ jobs) w ≡ process run jobs (end_of (run job w))
unfolding for_each
process_step run job jobs w = elim (Result-cases (run job w)) [
  | inl (a, v, e) ↦ rw (e, for_each) refl
  | inr (x, v, e) ↦ rw (e, for_each) refl
]

pub process_ends :
    {W : Type 0} (run : Job → Io W (Unit {0})) (jobs : List Job) (w : W)
    → (v : W) × (process run jobs w ≡ ok tt v)
unfolding for_each
process_ends run [] w = (w, refl)
process_ends run (job ∷ jobs) w =
    let (v, done) = process_ends run jobs (end_of (run job w)) in
    (v, process_step run job jobs w ∙ done)

-- The jobs of a scan.
abbrev pub jobs_of : Collected → List Job
jobs_of c = map update_balance (unique c.addresses) ++ map insert_event_log c.result

-- The queue puts what it is given behind the jobs that it holds.
pub record IsQueue {W : Type 0} (o : Outside W) (held : W → List Job) : Type 0 where
  pub adds :
      (jobs : List Job) (w : W)
      → (v : W) × (o.queue.add_bulk jobs w ≡ ok tt v) × (held v ≡ held w ++ jobs)

module _ {W : Type 0} (o : Outside W) (default_start : ℕ) {held : W → List Job}
    (queue : IsQueue o held) where
  add_jobs-held :
      (jobs : List Job) (w : W)
      → (v : W) × (add_jobs o default_start jobs w ≡ ok tt v) × (held v ≡ held w ++ jobs)
  unfolding add_jobs
  add_jobs-held [] w = (w, refl, sym (append-nil (held w)))
  add_jobs-held (job ∷ jobs) w = queue.adds (job ∷ jobs) w

  pub queue_collected-held :
      (c : Collected) (w : W)
      → (v : W) × (queue_collected o default_start c w ≡ ok tt v) × (held v ≡ held w ++ jobs_of c)
  unfolding queue_collected
  queue_collected-held c w =
      let updates = map update_balance (unique c.addresses) in
      let inserts = map insert_event_log c.result in
      let (u, first, held_first) = add_jobs-held updates w in
      let (v, second, held_second) = add_jobs-held inserts u in
      (
        v,
        rw first second,
        held_second
            ∙ ap (λ jobs. jobs ++ inserts) held_first
            ∙ append_assoc (held w) updates inserts,
      )
