-- ===== src/Tests/Decoded.antt =====
-- A mint that web3 has decoded.
use vnst_be.Base.{
  ℕ, zero, suc, ◌≡◌, refl, subst, true, false, Option, some, [], ◌∷◌, get_elem?, All, txt, text_eq,
  decimal, digits_before,
}
use vnst_be.Schema.Chains.{bsc}
use vnst_be.Schema.Amount.{from_wei}
use vnst_be.Schema.Notification
use vnst_be.Schema.EventLog.{FieldValue, text, bigint}
use vnst_be.External.Infra.{EventLogWeb3}
use vnst_be.Contract.Abi.{AbiParameter, address_type, uint256_type, event_argument, event_inputs}
use vnst_be.Contract.VnstAbi.{vnst_abi}
use vnst_be.Utils.ParseInt.{plain, negative}
use vnst_be.Utils.Transform.{Parsed, undefined, nan, number, parse_string_to_number}
use vnst_be.EventLogs.Parse.{field, field_text, parse_event_log}
use vnst_be.EventLogs.Scan.{collect}
use vnst_be.EventLogs.QueueLaws.{jobs_of}
use vnst_be.EventLogs.Consumer.{event_kind, new_notification}
use vnst_be.EventLogs.DecodedLaws.{IsDecoded, HasType, trade_inputs, new_notification-decoded}
use vnst_be.EventLogs.JobLaws.{Succeeds, run_job-jobs_of}
use vnst_be.Tests.World.{wallet_a, outside}
use vnst_be.Tests.EventLogs.{log}

abbrev mint_log : EventLogWeb3
mint_log = record log {
  event = txt "EMint";
  return_values =
      (txt "0", text (txt "0xa"))
      ∷ (txt "1", bigint 4)
      ∷ (txt "2", bigint 100)
      ∷ (txt "3", bigint 77)
      ∷ (txt "4", bigint 25)
      ∷ (txt "address_mint", text (txt "0xa"))
      ∷ (txt "amount_in", bigint 4)
      ∷ (txt "amount_out", bigint 100)
      ∷ (txt "created_at", bigint 77)
      ∷ (txt "market_price", bigint 25)
      ∷ [];
}

-- What is asked of one argument.
abbrev Shown : ℕ → AbiParameter → Type 0
Shown i p =
    (v : FieldValue) × (field (decimal i) mint_log.return_values ≡ some v)
    × (field p.name mint_log.return_values ≡ some v)
    × HasType p.type v

mint_log-Shown :
    (i : ℕ) (p : AbiParameter)
    → get_elem? (trade_inputs (txt "address_mint")) i ≡ some p
    → Shown i p
unfolding field text_eq decimal digits_before
mint_log-Shown zero p e =
    let same : event_argument true (txt "address_mint") address_type ≡ p = cc in
    subst (Shown 0) same (text (txt "0xa"), refl, refl, (txt "0xa", refl))
mint_log-Shown (suc zero) p e =
    let same : event_argument false (txt "amount_in") uint256_type ≡ p = cc in
    subst (Shown 1) same (bigint 4, refl, refl, (4, refl))
mint_log-Shown (suc (suc zero)) p e =
    let same : event_argument false (txt "amount_out") uint256_type ≡ p = cc in
    subst (Shown 2) same (bigint 100, refl, refl, (100, refl))
mint_log-Shown (suc (suc (suc zero))) p e =
    let same : event_argument false (txt "created_at") uint256_type ≡ p = cc in
    subst (Shown 3) same (bigint 77, refl, refl, (77, refl))
mint_log-Shown (suc (suc (suc (suc zero)))) p e =
    let same : event_argument false (txt "market_price") uint256_type ≡ p = cc in
    subst (Shown 4) same (bigint 25, refl, refl, (25, refl))
mint_log-Shown (suc (suc (suc (suc (suc i))))) p e = absurd cc

mint_log-IsDecoded : IsDecoded vnst_abi mint_log
unfolding event_inputs text_eq
mint_log-IsDecoded = record {
  inputs = trade_inputs (txt "address_mint");
  declared = refl;
  values = mint_log-Shown;
}

abbrev whole : Parsed → ℕ
whole undefined = 0
whole nan = 0
whole (number (plain n)) = n
whole (number (negative n)) = 0

-- `Number` of a text of digits.
abbrev read_number : Option FieldValue → ℕ
read_number v = whole (parse_string_to_number (field_text v))

mint_log-kind : event_kind mint_log.event ≡ some Notification.mint
unfolding event_kind text_eq
mint_log-kind = refl

new_notification-decoded_example :
    (amount_in : ℕ) × (amount_out : ℕ) × (created_at : ℕ) × (field
        (txt "amount_in")
        mint_log.return_values
      ≡ some (bigint amount_in))
    × (field (txt "amount_out") mint_log.return_values ≡ some (bigint amount_out))
    × (field (txt "created_at") mint_log.return_values ≡ some (bigint created_at))
    × (new_notification outside read_number
          (parse_event_log outside.library.is_ethereum_address mint_log bsc)
          Notification.mint
          wallet_a
        ≡ record {
          wallet = txt "a";
          metadata = record {
            amount_in = from_wei (read_number (some (text (decimal amount_in))));
            amount_out = from_wei (read_number (some (text (decimal amount_out))));
            transaction_hash = some (txt "0xt");
            timestamp = read_number (some (text (decimal created_at)));
          };
          type = Notification.mint;
          read = false;
        })
new_notification-decoded_example =
    new_notification-decoded outside read_number mint_log Notification.mint wallet_a
      mint_log-IsDecoded mint_log-kind

run_job-jobs_of_example :
    All
      (Succeeds outside read_number 0)
      (jobs_of (collect outside 0 (mint_log ∷ []) (record { addresses = []; result = [] })))
run_job-jobs_of_example =
    run_job-jobs_of outside read_number 0 (λ event w. (some (txt "id"), w, refl)) (mint_log ∷ [])
      (mint_log-IsDecoded, tt)
