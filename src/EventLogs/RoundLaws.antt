-- ===== src/EventLogs/RoundLaws.antt =====
-- On the loop of `scanEventLog`, src/modules/event-logs/event-logs.service.ts.
use mathlib.Core.List.{append-nil, append_assoc, Memᴰ}
use mathlib.Core.List.Memᴰ
use vnst_be.Base.{
  ℕ, zero, suc, ◌+◌, ◌*◌, ◌≤◌, ◌<◌, ◌≡◌, refl, sym, ap, ◌∙◌, subst, inl, inr, false, some, List, [],
  ◌∷◌, ◌++◌, map, leb, Bool-cases, ok, arith,
}
use vnst_be.Schema.Chains.{bsc}
use vnst_be.Schema.EventLog.{EventLog}
use vnst_be.External.Infra.{Outside, EventLogWeb3}
use vnst_be.EventLogs.Parse.{Collected, parse_event_log}
use vnst_be.EventLogs.Scan.{range_query, clip, collect, scan_range, scan_rounds}
use vnst_be.EventLogs.ScanLaws.{
  between, fetched, fetched-more, fetched-done, mem-fetched, fetched-mem,
}

map-append : {A B : Type 0} (f : A → B) (xs ys : List A) → map f (xs ++ ys) ≡ map f xs ++ map f ys
map-append f [] ys = refl
map-append f (x ∷ xs) ys = ap (◌∷◌ (f x)) (map-append f xs ys)

module _ {W : Type 0} (o : Outside W) (default_start : ℕ) (at_block : ℕ → List EventLogWeb3) where
  -- The node answers a query with the events of the blocks that it names, `at_block` for each, and
  -- neither a query nor a pause changes anything.
  pub record IsNode : Type 0 where
    pub answers :
        (from to : ℕ) (w : W)
        → o.contract.get_past_events (range_query from to) w ≡ ok (between at_block from to) w
    pub waits : (ms : ℕ) (w : W) → o.timer.sleep ms w ≡ ok tt w

  abbrev pub parse : EventLogWeb3 → EventLog
  parse log = parse_event_log o.library.is_ethereum_address log bsc

  collect-result :
      (logs : List EventLogWeb3) (c : Collected)
      → (collect o default_start logs c).result ≡ c.result ++ map parse logs
  unfolding collect
  collect-result [] c = sym (append-nil c.result)
  collect-result (log ∷ logs) c =
      collect-result logs _ ∙ append_assoc c.result (parse log ∷ []) (map parse logs)

  module _ (node : IsNode) where
    scan_range-collect :
        (from to : ℕ) (c : Collected) (w : W)
        → scan_range o default_start from to c w
          ≡ ok (collect o default_start (between at_block from to) c) w
    unfolding scan_range
    scan_range-collect from to c w = rw (node.answers from to w, node.waits 500 w)

    scan_rounds-fetched :
        (n from current : ℕ) (c : Collected) (w : W)
        → current < from + n * 5000
        → (r : Collected) × (scan_rounds o default_start (suc n) from current c w ≡ ok (some r) w)
          × (r.result ≡ c.result ++ map parse (fetched at_block n from current))
    unfolding scan_rounds
    scan_rounds-fetched zero from current c w enough =
        let done : leb from current ≡ false = ground arith in
        (
          c,
          rw (done, scan_rounds),
          sym (append-nil c.result)
              ∙ ap (λ xs. c.result ++ map parse xs)
                  (sym (fetched-done at_block zero from current done)),
        )
    scan_rounds-fetched (suc n) from current c w enough = elim (Bool-cases (leb from current)) [
      | inr done ↦ (
        c,
        rw (done, scan_rounds),
        sym (append-nil c.result)
            ∙ ap (λ xs. c.result ++ map parse xs)
                (sym (fetched-done at_block (suc n) from current done)),
      )
      | inl more ↦
          let to = clip (from + 5000) current in
          let seen = between at_block from to in
          let later = fetched at_block n (from + 5000) current in
          let (r, done, all) =
            scan_rounds-fetched n (from + 5000) current (collect o default_start seen c) w
              (omega arith) in
          (
            r,
            rw (more, scan_range-collect from to c w, scan_rounds) done,
            all
                ∙ ap (λ xs. xs ++ map parse later) (collect-result seen c)
                ∙ append_assoc c.result (map parse seen) (map parse later)
                ∙ ap (λ xs. c.result ++ xs) (sym (map-append parse seen later))
                ∙ ap (λ xs. c.result ++ map parse xs)
                    (sym (fetched-more at_block n from current more)),
          )
    ]

    -- If the node answers each query with the events of the blocks that it names, then with one
    -- round more than there are ranges the loop ends, and it has collected the parsed events of
    -- exactly the blocks from `from` up to the current one: every event of those blocks, and nothing
    -- else.
    pub scan_rounds_complete :
        (n from current : ℕ) (w : W)
        → current < from + n * 5000
        → (r : Collected) × (scan_rounds o default_start
              (suc n)
              from
              current
              (record { addresses = []; result = [] })
              w
            ≡ ok (some r) w)
          × ((b : ℕ) (log : EventLogWeb3)
              → from ≤ b
              → b ≤ current
              → Memᴰ log (at_block b)
              → Memᴰ (parse log) r.result)
          × ((e : EventLog)
              → Memᴰ e r.result
              → (b : ℕ) × (log : EventLogWeb3) × (from ≤ b)
                × (b ≤ current)
                × Memᴰ log (at_block b)
                × (parse log ≡ e))
    scan_rounds_complete n from current w enough =
        let (r, done, all) =
          scan_rounds-fetched n from current (record { addresses = []; result = [] }) w enough in
        (
          r,
          done,
          λ b log lo hi m.
              subst (λ xs. Memᴰ (parse log) xs) (sym all)
                (Memᴰ.map parse (mem-fetched at_block n from current b enough lo hi m)),
          λ e m.
              let (log, found, same) = Memᴰ.of_map parse _ (subst (λ xs. Memᴰ e xs) all m) in
              let (b, lo, hi, here) = fetched-mem at_block n from current found in
              (b, log, lo, hi, here, same),
        )
