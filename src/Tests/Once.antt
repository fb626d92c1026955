-- ===== src/Tests/Once.antt =====
-- A collection that keeps events by their transaction, and a job delivered twice.
use vnst_be.Base.{
  List, ◌||◌, text_eq, All, end_of, arith, ◌≡◌, refl, inl, inr, Bool, true, Option, none, some, [],
  ◌∷◌, Text, txt, any, option_text_eq, text_eq_refl, if◌then◌else◌, Result, ok, Bool-cases, subst,
}
use vnst_be.Schema.EventLog.{EventLog, LogKey, log_key}
use vnst_be.External.Infra.{Outside}
use vnst_be.EventLogs.OnceLaws.{IsEventStore}
use vnst_be.EventLogs.Workers.{WorkerStep, deliver, resume, run_workers, worker_step, updated}
use vnst_be.EventLogs.WorkerLaws.{Distinct, run_workers-Distinct}
use vnst_be.Tests.World.{World, world, outside}
use vnst_be.Tests.Services.{mint_log}

abbrev pub is_under : LogKey → EventLog → Bool
is_under key log = option_text_eq log.transaction_hash key.transaction_hash

abbrev pub known : LogKey → World → Bool
known key w = any (is_under key) w.events

abbrev pub upsert : LogKey → EventLog → World → Result World (Option Text)
upsert key log w =
    if known key w then ok none w else ok (some (txt "id")) (record w { events = log ∷ w.events })

abbrev pub collection : Outside World
collection = record outside {
  event_logs = record outside.event_logs { update_one = λ key log b w. upsert key log w };
}

option_text_eq_refl : (s : Option Text) → option_text_eq s s ≡ true
option_text_eq_refl none = refl
option_text_eq_refl (some t) = text_eq_refl t

upsert-known :
    (log : EventLog) (upserted : Option Text) (w v : World)
    → upsert (log_key log) log w ≡ ok upserted v
    → known (log_key log) v ≡ true
upsert-known log upserted w v e = elim (Bool-cases (known (log_key log) w)) [
  | inl old ↦
      let same : ok none w ≡ ok upserted v = rw old at e in
      let there : w ≡ v = cc in subst (λ x. known (log_key log) x ≡ true) there old
  | inr new ↦
      let stored = record w { events = log ∷ w.events } in
      let same : ok (some (txt "id")) stored ≡ ok upserted v = rw new at e in
      let there : stored ≡ v = cc in
      let found : known (log_key log) stored ≡ true =
        rw (option_text_eq_refl log.transaction_hash) refl in
      subst (λ x. known (log_key log) x ≡ true) there found
]

or-true : (b : Bool) → (b || true) ≡ true
or-true b = ground arith

pub upsert-lasts :
    (key : LogKey) (log : EventLog) (w : World)
    → known key w ≡ true
    → known key (end_of (upsert (log_key log) log w)) ≡ true
upsert-lasts key log w h = elim (Bool-cases (known (log_key log) w)) [
  | inl old ↦ rw (old, h) refl
  | inr new ↦ rw (new, h) (or-true (is_under key log))
]

pub collection-IsEventStore : IsEventStore collection known
collection-IsEventStore = record {
  stores = upsert-known;
  repeats = λ log w h. (w, rw h refl);
  finds = λ key filter w. refl;
  creates = λ key notification w. refl;
  sends = λ key mail w. refl;
}

-- Two workers are given the same event before the first of them has notified.
abbrev steps : List WorkerStep
steps = deliver mint_log ∷ deliver mint_log ∷ resume 0 ∷ deliver mint_log ∷ resume 0 ∷ []

run_workers-Distinct_example :
    let end =
      run_workers collection (λ f. 0) (record { waiting = []; taken = []; world = world }) steps in
    Distinct end.taken × All (λ log. known (log_key log) end.world ≡ true) end.taken
run_workers-Distinct_example =
    run_workers-Distinct collection (λ f. 0) collection-IsEventStore upsert-lasts steps world

-- Of two deliveries one is taken up.
delivered-taken :
    (run_workers collection
      (λ f. 0)
      (record { waiting = []; taken = []; world = world })
      (deliver mint_log ∷ deliver mint_log ∷ [])).taken
    ≡ mint_log ∷ []
unfolding run_workers worker_step updated text_eq
delivered-taken = refl
