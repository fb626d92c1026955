-- ===== src/Tests/EventLogs.antt =====
-- The scan of a node whose block 6500 holds one event.
use mathlib.Core.List.{Memᴰ}
use vnst_be.Base.{
  true, Option, map, All, Text, ℕ, ◌≤◌, ◌≡◌, refl, none, some, List, [], ◌∷◌, txt, ◌==◌,
  if◌then◌else◌, arith, ok,
}
use vnst_be.Schema.EventLog.{
  FieldValue, bigint, EventLog, text, js_number, array, no_values, with_value,
}
use vnst_be.EventLogs.Parse.{to_object, Collected}
use vnst_be.EventLogs.ValueLaws.{IsJson, IsLowered, to_object-IsJson}
use vnst_be.External.Infra.{Outside, EventLogWeb3}
use vnst_be.EventLogs.Scan.{scan_rounds}
use vnst_be.EventLogs.ScanLaws.{between}
use vnst_be.EventLogs.RoundLaws.{IsNode, parse, scan_rounds_complete}
use vnst_be.External.Infra.{CacheValue, Job}
use vnst_be.Tests.World.{World, world, outside}

abbrev pub log : EventLogWeb3
log = record {
  event = txt "Transfer";
  log_index = some 0;
  transaction_index = some 0;
  transaction_hash = some (txt "0xt");
  block_hash = some (txt "0xb");
  block_number = some 6500;
  address = txt "0xc";
  topics = [];
  raw_data = [];
  raw = none;
  return_values = (txt "from", text (txt "0xa")) ∷ (txt "to", text (txt "0xb")) ∷ [];
  signature = none;
}

abbrev pub at_block : ℕ → List EventLogWeb3
at_block b = if b == 6500 then log ∷ [] else []

abbrev pub node : Outside World
node = record outside {
  contract = record outside.contract {
    get_past_events = λ q w. ok (between at_block q.from_block q.to_block) w;
  };
}

node-IsNode : IsNode node 0 at_block
node-IsNode = record { answers = λ from to w. refl; waits = λ ms w. refl }

scan_rounds_complete_example :
    (r : Collected) × (scan_rounds node 0 3 100 7000 (record { addresses = []; result = [] }) world
      ≡ ok (some r) world)
    × ((b : ℕ) (l : EventLogWeb3)
        → 100 ≤ b
        → b ≤ 7000
        → Memᴰ l (at_block b)
        → Memᴰ (parse node 0 at_block l) r.result)
    × ((e : EventLog)
        → Memᴰ e r.result
        → (b : ℕ) × (l : EventLogWeb3) × (100 ≤ b)
          × (b ≤ 7000)
          × Memᴰ l (at_block b)
          × (parse node 0 at_block l ≡ e))
scan_rounds_complete_example =
    scan_rounds_complete node 0 at_block node-IsNode 2 100 7000 world (omega arith)

abbrev values : List (Text × FieldValue)
values =
    (txt "__length__", js_number 2)
    ∷ (txt "0", array (with_value (text (txt "0xA")) (with_value (bigint 7) no_values)))
    ∷ (txt "1", bigint 250)
    ∷ []

to_object-IsJson_example :
    (map (λ f. f.0) (to_object (λ t. true) values) ≡ map (λ f. f.0) values)
    × All (λ f. IsJson f.1 × IsLowered (λ t. true) f.1) (to_object (λ t. true) values)
to_object-IsJson_example = to_object-IsJson (λ t. true) values

abbrev cursor_of : World → Option CacheValue
cursor_of w = w.cached

abbrev held_by : World → List Job
held_by w = w.queued
