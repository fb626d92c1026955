-- ===== src/Tests/Logs.antt =====
-- The log of transactions, over a collection that is a function of the hash.
use vnst_be.Base.{
  ℕ, ◌≡◌, ◌≢◌, refl, sym, ap, ◌∙◌, Option, none, some, List, [], ◌∷◌, Text, txt, text_eq, ◌++◌, All,
  text_eq_iff, text_eq_refl, for_each, if◌then◌else◌, Io, Result, ok, thrown, Bool-cases, inl, inr,
}
use vnst_be.Logs.Transactions.{
  TransactionModel, TransactionLog, ScannedTransaction, Decoded, transaction_log_job, store_item,
  log_of,
}
use vnst_be.Logs.RecordLaws.{IsLogStore, IsNextBlock, logged_item, transaction_log_job-Stored}

abbrev inputs : List (Option Text)
inputs = some (txt "0x1f") ∷ none ∷ []

abbrev names : List Text
names = txt "amount" ∷ []

abbrev Collection : Type 0
Collection = Text → Option TransactionLog

abbrev with_log : Text → TransactionLog → Collection → Collection
with_log hash log w t = if text_eq t hash then some log else w t

abbrev collection : TransactionModel Collection
collection = record {
  latest_block_number = λ w. ok (some 4) w;
  upsert = λ hash log w. ok tt (with_log hash log w);
  find = λ f q w. ok [] w;
  count = λ f w. ok 0 w;
}

abbrev logged : Collection → Text → Option TransactionLog
logged w t = w t

abbrev unit_state : Collection → Result Collection (Unit {0}) → Collection
unit_state w (ok _ v) = v
unit_state w (thrown e v) = v

collection-IsLogStore : IsLogStore collection logged
collection-IsLogStore = record {
  sets = λ hash log w v h.
      let e : with_log hash log w ≡ v = ap (unit_state w) h in
      ap (λ c. c hash) (sym e) ∙ rw (text_eq_refl hash) refl;
  keeps = λ hash other log w v h n.
      let e : with_log hash log w ≡ v = ap (unit_state w) h in
      ap (λ c. c other) (sym e) ∙ kept hash other log w n;
}
  where
    kept :
        (hash other : Text) (log : TransactionLog) (w : Collection)
        → other ≢ hash
        → with_log hash log w other ≡ w other
    kept hash other log w n = elim (Bool-cases (text_eq other hash)) [
      | inl same ↦ absurd (n ((text_eq_iff other hash).0 same))
      | inr differs ↦ rw differs refl
    ]

abbrev item : ScannedTransaction
item = record {
  hash = txt "0xt";
  block_number = 5;
  time_stamp = 1;
  from = txt "0xa";
  to = txt "0xc";
  input = txt "0x";
}

abbrev decode : Text → Decoded
decode input = record { method = txt "mint"; inputs = inputs; names = names }

abbrev explorer : ℕ → Io Collection (List ScannedTransaction)
explorer n w = ok (item ∷ []) w

abbrev empty : Collection
empty t = none

abbrev filled : Collection
filled = with_log (txt "0xt") (log_of collection decode explorer item) empty

job_done : transaction_log_job collection decode explorer empty ≡ ok tt filled
unfolding transaction_log_job for_each store_item
job_done = refl

transaction_log_job-Stored_example :
    (latest : Option ℕ) × (block : ℕ) × (u : Collection) × (result : List ScannedTransaction)
    × (u' : Collection) × (collection.latest_block_number empty ≡ ok latest u)
    × IsNextBlock latest block
    × (explorer block u ≡ ok result u')
    × ((before after : List ScannedTransaction) (i : ScannedTransaction)
        → result ≡ before ++ i ∷ after
        → All (λ j. i.hash ≢ j.hash) after
        → filled i.hash ≡ some (logged_item decode i))
transaction_log_job-Stored_example =
    transaction_log_job-Stored collection decode explorer logged collection-IsLogStore empty filled
      job_done
