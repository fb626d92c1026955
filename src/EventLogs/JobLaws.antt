-- ===== src/EventLogs/JobLaws.antt =====
-- On the jobs of decoded events, src/modules/event-logs.
use vnst_be.Base.{
  All-mem, mem-All, ℕ, ◌≡◌, refl, ap, ◌∙◌, inl, inr, Bool, true, false, Option, none, some, List,
  [], ◌∷◌, map, All, All-append, Text, txt, text_eq, text_eq_sound, to_lower_case, ok, Bool-cases,
  Option-cases,
}
use vnst_be.Schema.Chains.{bsc}
use vnst_be.Schema.EventLog.{EventLog, FieldValue, text, log_key}
use vnst_be.External.Infra.{Outside, EventLogWeb3, Job, update_balance, insert_event_log}
use vnst_be.Contract.Abi.{address_type, uint256_type, AbiParameter, event_argument, event_inputs}
use vnst_be.Contract.VnstAbi.{vnst_abi}
use vnst_be.EventLogs.Parse.{
  transfer_event, field, field_text, replace_value, parse_event_log, transfer_addresses, Collected,
  unique,
}
use vnst_be.EventLogs.ParseLaws.{unique-NoRepeat}
use vnst_be.EventLogs.Scan.{collect}
use vnst_be.EventLogs.QueueLaws.{jobs_of}
use vnst_be.EventLogs.Consumer.{event_kind, insert_event_log_job, run_job, update_balance_job}
use vnst_be.EventLogs.ConsumerLaws.{insert_event_log_job_contained, update_balance_job_contained}
use vnst_be.EventLogs.DecodedLaws.{IsDecoded, decoded-Trade, decoded-value, field-to_object}

replace_value-text :
    (is_ethereum_address : Text → Bool) (t : Text)
    → (s : Text) × (field_text (some (replace_value is_ethereum_address (text t))) ≡ some s)
unfolding replace_value
replace_value-text is t = elim (Bool-cases (is t)) [
  | inl e ↦ (to_lower_case t, rw e refl)
  | inr e ↦ (t, rw e refl)
]

abbrev transfer_inputs : List AbiParameter
transfer_inputs =
    event_argument true (txt "from") address_type
    ∷ event_argument true (txt "to") address_type
    ∷ event_argument false (txt "value") uint256_type
    ∷ []

transfer_event-inputs : event_inputs transfer_event vnst_abi ≡ some transfer_inputs
unfolding event_inputs text_eq
transfer_event-inputs = refl

-- An address that was collected is there.
abbrev IsGiven : Option Text → Type 0
IsGiven a = (t : Text) × (a ≡ some t)

transfer_addresses-IsGiven :
    (log : EventLogWeb3) → IsDecoded vnst_abi log → All IsGiven (transfer_addresses log)
transfer_addresses-IsGiven log decoded = elim (Bool-cases (text_eq log.event transfer_event)) [
  | inr other ↦ rw other tt
  | inl moved ↦
      let event = text_eq_sound log.event transfer_event moved in
      let declared : event_inputs log.event vnst_abi ≡ some decoded.inputs = decoded.declared in
      let same : decoded.inputs ≡ transfer_inputs =
        cc (declared, ap (λ x. event_inputs x vnst_abi) event, transfer_event-inputs) in
      let (v, e, n, (from, t)) =
        decoded-value log decoded transfer_inputs same 0
          (event_argument true (txt "from") address_type) refl in
      let (v', e', n', (to, t')) =
        decoded-value log decoded transfer_inputs same 1
          (event_argument true (txt "to") address_type) refl in
      rw moved ((from, ap field_text (n ∙ ap some t)), ((to, ap field_text (n' ∙ ap some t')), tt))
]

module _ {W : Type 0} (o : Outside W) (number : Option FieldValue → ℕ) where
  insert_event_log_job-decoded :
      (log : EventLogWeb3) (upserted : Option Text) (w u : W) (event : EventLog)
      → event ≡ parse_event_log o.library.is_ethereum_address log bsc
      → IsDecoded vnst_abi log
      → o.event_logs.update_one (log_key event) event true w ≡ ok upserted u
      → (v : W) × (insert_event_log_job o number event w ≡ ok tt v)
  unfolding insert_event_log_job parse_event_log
  insert_event_log_job-decoded log upserted w u event parsed decoded e =
      elim (Option-cases (event_kind log.event)) [
        | inl no_kind ↦
            let quiet : event_kind event.event ≡ none =
              ap (λ x. event_kind x.event) parsed ∙ no_kind in
            elim (Option-cases upserted) [
              | inl old ↦ (u, rw (e, old) refl)
              | inr (id, new) ↦ (u, rw (e, new, quiet) refl)
            ]
        | inr (kind, has_kind) ↦
            let trade = decoded-Trade log kind decoded has_kind in
            let is = o.library.is_ethereum_address in
            let (address, shown) = replace_value-text is trade.address in
            let first : field_text (field (txt "0") event.return_values) ≡ some address =
              ap (λ x. field_text (field (txt "0") x.return_values)) parsed
              ∙ ap field_text (field-to_object is (txt "0") log.return_values _ trade.owner)
              ∙ shown in
            let (v, done, _) =
              insert_event_log_job_contained o number event address upserted w u e first in
            (v, done)
      ]

module _ {W : Type 0} (o : Outside W) (default_start : ℕ) where
  -- An event that was collected comes from a decoded one.
  abbrev IsParsed : EventLog → Type 0
  IsParsed event =
      (log : EventLogWeb3) × (event ≡ parse_event_log o.library.is_ethereum_address log bsc)
      × IsDecoded vnst_abi log

  collect-IsGiven :
      (logs : List EventLogWeb3) (c : Collected)
      → All (IsDecoded vnst_abi) logs
      → All IsGiven c.addresses
      → All IsGiven (collect o default_start logs c).addresses
  unfolding collect
  collect-IsGiven [] c d h = h
  collect-IsGiven (log ∷ logs) c (here, later) h = collect-IsGiven logs _ later (
      All-append IsGiven c.addresses (transfer_addresses log) h
        (transfer_addresses-IsGiven log here))

  collect-IsParsed :
      (logs : List EventLogWeb3) (c : Collected)
      → All (IsDecoded vnst_abi) logs
      → All IsParsed c.result
      → All IsParsed (collect o default_start logs c).result
  unfolding collect
  collect-IsParsed [] c d h = h
  collect-IsParsed (log ∷ logs) c (here, later) h = collect-IsParsed logs _ later (
      All-append IsParsed c.result (parse_event_log o.library.is_ethereum_address log bsc ∷ []) h
        ((log, refl, here), tt))

All-map :
    {A B : Type 0} (P : B → Type 0) (f : A → B) (xs : List A)
    → All (λ a. P (f a)) xs
    → All P (map f xs)
All-map P f [] h = tt
All-map P f (x ∷ xs) h = (h.0, All-map P f xs h.1)

module _ {W : Type 0} (o : Outside W) (number : Option FieldValue → ℕ) (default_start : ℕ) where
  -- The job ends without an exception, from any state.
  abbrev pub Succeeds : Job → Type 0
  Succeeds job = (w : W) → (v : W) × (run_job o number job w ≡ ok tt v)

  -- If web3 decodes the events by the contract's ABI and the collection takes every update, then no job
  -- that the scan makes of these events ever throws: each transfer has both addresses, and each mint
  -- and redemption the address of its owner.
  pub run_job-jobs_of :
      (accepts : (event : EventLog) (w : W)
        → (upserted : Option Text) × (v : W) × (o.event_logs.update_one (log_key event) event true w
            ≡ ok upserted v))
      (logs : List EventLogWeb3)
      → All (IsDecoded vnst_abi) logs
      → All Succeeds
          (jobs_of (collect o default_start logs (record { addresses = []; result = [] })))
  unfolding run_job update_balance_job
  run_job-jobs_of accepts logs decoded =
      let none_yet : Collected = record { addresses = []; result = [] } in
      let c = collect o default_start logs none_yet in
      let given = collect-IsGiven o default_start logs none_yet decoded tt in
      let parsed = collect-IsParsed o default_start logs none_yet decoded tt in
      All-append Succeeds (map update_balance (unique c.addresses)) (map insert_event_log c.result)
        (All-map Succeeds update_balance (unique c.addresses) (
          mem-All _ (unique c.addresses) (λ a m w.
            let (t, e) =
              All-mem IsGiven c.addresses a given (((unique-NoRepeat c.addresses).1 a).0 m) in
            let (v, done, _) = update_balance_job_contained o t w in (v, rw e done))))
        (All-map Succeeds insert_event_log c.result (
          mem-All _ c.result (λ event m w.
            let (log, same, is_decoded) =
              All-mem (IsParsed o default_start) c.result event parsed m in
            let (upserted, u, stored) = accepts event w in
            insert_event_log_job-decoded o number log upserted w u event same is_decoded stored)))
