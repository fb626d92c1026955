-- ===== src/Tests/Exact.antt =====
-- The scan of a node over a collection that keeps events by their whole key.
use mathlib.Core.List.{Memᴰ}
use mathlib.Core.List.Memᴰ
use vnst_be.Base.{
  ok-injective, ℕ, ◌≡◌, ◌↔◌, ◌⊎◌, refl, subst, inl, inr, Bool, true, false, ◌&&◌, ◌||◌, ◌==◌,
  Option, none, some, List, [], ◌∷◌, ◌++◌, any, Text, txt, text_eq_refl, text_eq_sound,
  option_text_eq, if◌then◌else◌, Result, ok, end_of, arith, Bool-cases, ap,
}
use vnst_be.Schema.Chains.{ChainId, bsc, eth}
use vnst_be.Schema.EventLog.{EventLog, LogKey, log_key}
use vnst_be.External.Infra.{Outside, Job}
use vnst_be.EventLogs.Parse.{Collected}
use vnst_be.EventLogs.Scan.{scan_rounds, queue_collected}
use vnst_be.EventLogs.Consumer.{run_job}
use vnst_be.EventLogs.OnceLaws.{IsEventStore}
use vnst_be.EventLogs.RoundLaws.{IsNode}
use vnst_be.EventLogs.QueueLaws.{process, IsQueue}
use vnst_be.EventLogs.ExactLaws.{IsExact, IsScanned, scan-process-IsScanned}
use vnst_be.Tests.World.{World, world, outside}
use vnst_be.Tests.EventLogs.{at_block, node}

abbrev number_eq : Option ℕ → Option ℕ → Bool
number_eq none none = true
number_eq none (some n) = false
number_eq (some m) none = false
number_eq (some m) (some n) = m == n

abbrev chain_eq : ChainId → ChainId → Bool
chain_eq bsc bsc = true
chain_eq bsc eth = false
chain_eq eth bsc = false
chain_eq eth eth = true

abbrev key_eq : LogKey → LogKey → Bool
key_eq a b =
    option_text_eq a.block_hash b.block_hash
    && (option_text_eq a.transaction_hash b.transaction_hash
        && (number_eq a.log_index b.log_index && chain_eq a.chain_id b.chain_id))

text-same : (a b : Option Text) → option_text_eq a b ≡ true → a ≡ b
text-same none none h = refl
text-same none (some t) h = cc
text-same (some s) none h = cc
text-same (some s) (some t) h = ap some (text_eq_sound s t h)

number-same : (a b : Option ℕ) → number_eq a b ≡ true → a ≡ b
number-same none none h = refl
number-same none (some n) h = cc
number-same (some m) none h = cc
number-same (some m) (some n) h = ap some (ground (arith, h))

chain-same : (a b : ChainId) → chain_eq a b ≡ true → a ≡ b
chain-same bsc bsc h = refl
chain-same bsc eth h = cc
chain-same eth bsc h = cc
chain-same eth eth h = refl

and-true : (a b : Bool) → (a && b) ≡ true → (a ≡ true) × (b ≡ true)
and-true true true h = (refl, refl)
and-true true false h = cc
and-true false b h = cc

key_eq_sound : (a b : LogKey) → key_eq a b ≡ true → a ≡ b
key_eq_sound a b h =
    let (block, h1) = and-true _ _ h in
    let (transaction, h2) = and-true _ _ h1 in
    let (index, chain) = and-true _ _ h2 in
    let e1 = text-same a.block_hash b.block_hash block in
    let e2 = text-same a.transaction_hash b.transaction_hash transaction in
    let e3 = number-same a.log_index b.log_index index in
    let e4 = chain-same a.chain_id b.chain_id chain in cc

text_refl : (a : Option Text) → option_text_eq a a ≡ true
text_refl none = refl
text_refl (some t) = text_eq_refl t

number_refl : (a : Option ℕ) → number_eq a a ≡ true
number_refl none = refl
number_refl (some n) = ground arith

chain_refl : (a : ChainId) → chain_eq a a ≡ true
chain_refl bsc = refl
chain_refl eth = refl

key_eq_refl : (a : LogKey) → key_eq a a ≡ true
key_eq_refl a =
    rw
      (
        text_refl a.block_hash,
        text_refl a.transaction_hash,
        number_refl a.log_index,
        chain_refl a.chain_id,
      )
      refl

abbrev holds : LogKey → World → Bool
holds key w = any (λ log. key_eq (log_key log) key) w.events

abbrev upsert : LogKey → EventLog → World → Result World (Option Text)
upsert key log w =
    if holds key w then ok none w else ok (some (txt "id")) (record w { events = log ∷ w.events })

abbrev server : Outside World
server = record outside {
  event_logs = record outside.event_logs { update_one = λ key log b w. upsert key log w };
  contract = node.contract;
}

upsert-holds :
    (log : EventLog) (upserted : Option Text) (w v : World)
    → upsert (log_key log) log w ≡ ok upserted v
    → holds (log_key log) v ≡ true
upsert-holds log upserted w v e = elim (Bool-cases (holds (log_key log) w)) [
  | inl old ↦
      let there : w ≡ v = ok-injective _ refl (rw old at e) in
      subst (λ x. holds (log_key log) x ≡ true) there old
  | inr new ↦
      let stored = record w { events = log ∷ w.events } in
      let there : stored ≡ v = ok-injective _ refl (rw new at e) in
      let found : holds (log_key log) stored ≡ true = rw (key_eq_refl (log_key log)) refl in
      subst (λ x. holds (log_key log) x ≡ true) there found
]

upsert-accepts :
    (log : EventLog) (w : World)
    → (upserted : Option Text) × (v : World) × (upsert (log_key log) log w ≡ ok upserted v)
upsert-accepts log w = elim (Bool-cases (holds (log_key log) w)) [
  | inl old ↦ (none, w, rw old refl)
  | inr new ↦ (some (txt "id"), record w { events = log ∷ w.events }, rw new refl)
]

or-true : (b : Bool) → (b || true) ≡ true
or-true b = ground arith

upsert-lasts :
    (key : LogKey) (log : EventLog) (w : World)
    → holds key w ≡ true
    → holds key (end_of (upsert (log_key log) log w)) ≡ true
upsert-lasts key log w h = elim (Bool-cases (holds (log_key log) w)) [
  | inl old ↦ rw (old, h) refl
  | inr new ↦ rw (new, h) (or-true (key_eq (log_key log) key))
]

upsert-own :
    (key : LogKey) (log : EventLog) (w : World)
    → holds key (end_of (upsert (log_key log) log w)) ≡ true
    → (holds key w ≡ true) ⊎ (log_key log ≡ key)
upsert-own key log w h = elim (Bool-cases (holds (log_key log) w)) [
  | inl old ↦ inl (rw old at h)
  | inr new ↦ elim (Bool-cases (key_eq (log_key log) key)) [
    | inl own ↦ inr (key_eq_sound (log_key log) key own)
    | inr other ↦ inl (rw (new, other) at h)
  ]
]

server-IsEventStore : IsEventStore server holds
server-IsEventStore = record {
  stores = upsert-holds;
  repeats = λ log w h. (w, rw h refl);
  finds = λ key filter w. refl;
  creates = λ key notification w. refl;
  sends = λ key mail w. refl;
}

server-IsExact : IsExact server holds
server-IsExact = record {
  lasting = record {
    store = server-IsEventStore;
    accepts = upsert-accepts;
    lasts = upsert-lasts;
    saves = λ key wallet w. refl;
    adds = λ key wallet w. refl;
    reads = λ key address w. refl;
  };
  adds_own = upsert-own;
  queues = λ key jobs w. refl;
}

server-IsNode : IsNode server 0 at_block
server-IsNode = record { answers = λ from to w. refl; waits = λ ms w. refl }

server-IsQueue : IsQueue server (λ w. w.queued)
server-IsQueue = record { adds = λ jobs w. (record w { queued = w.queued ++ jobs }, refl, refl) }

-- Every job is delivered twice.
abbrev twice : List Job → List Job
twice jobs = jobs ++ jobs

twice-Mem : (jobs : List Job) (job : Job) → Memᴰ job jobs ↔ Memᴰ job (twice jobs)
twice-Mem jobs job =
    (λ m. Memᴰ.append_left jobs m, λ m. elim (Memᴰ.append_cases jobs m) [ inl n ↦ n | inr n ↦ n ])

scan-process-IsScanned_example :
    (r : Collected) × (q : World) × (v : World) × (scan_rounds server 0 3 100 7000
        (record { addresses = []; result = [] })
        world
      ≡ ok (some r) world)
    × (queue_collected server 0 r world ≡ ok tt q)
    × (process (run_job server (λ f. 0)) (twice q.queued) q ≡ ok tt v)
    × ((key : LogKey)
        → (holds key v ≡ true)
          ↔ ((holds key world ≡ true) ⊎ IsScanned server 0 at_block 100 7000 key))
scan-process-IsScanned_example =
    scan-process-IsScanned server (λ f. 0) server-IsExact 0 at_block server-IsNode server-IsQueue
      twice twice-Mem 2 100 7000 world (omega arith) refl
