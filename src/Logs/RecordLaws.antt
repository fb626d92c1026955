-- ===== src/Logs/RecordLaws.antt =====
-- On the job and the inputs of src/modules/transaction-log/transaction-log.service.ts.
use mathlib.Core.List.{append-nil, append_assoc}
use vnst_be.Base.{
  ℕ, zero, suc, ◌+◌, ◌≡◌, ◌≢◌, refl, sym, ap, ◌∙◌, subst, inl, inr, ◌⊎◌, All, txt, Option, none,
  some, List, [], ◌∷◌, ◌++◌, Text, get_elem?, Io, ok, bind-eq-ok, for_each, arith,
}
use vnst_be.Logs.Transactions.{
  InputEntry, entry, push_entries, decode_hex_big_number_input, TransactionModel, TransactionLog,
  ScannedTransaction, Decoded, log_of, store_item, start_block, transaction_log_job,
}

-- The entries of the inputs from the index `i` on.
abbrev pub entries : List (Option Text) → List Text → ℕ → List InputEntry
entries [] names i = []
entries (hex ∷ hexes) names i = entry hex (get_elem? names i) ∷ entries hexes names (suc i)

push_entries-entries :
    (hexes : List (Option Text)) (names : List Text) (i : ℕ) (pre : List InputEntry)
    → push_entries hexes names i pre ≡ pre ++ entries hexes names i
unfolding push_entries
push_entries-entries [] names i pre = sym (append-nil pre)
push_entries-entries (hex ∷ hexes) names i pre =
    push_entries-entries hexes names (suc i) _
    ∙ append_assoc pre (entry hex (get_elem? names i) ∷ []) (entries hexes names (suc i))

-- An input's entry, at a place where there is an input.
abbrev pub entry_at : Option (Option Text) → Option Text → Option InputEntry
entry_at none name = none
entry_at (some hex) name = some (entry hex name)

get_elem?-entries :
    (hexes : List (Option Text)) (names : List Text) (k i : ℕ)
    → get_elem? (entries hexes names k) i ≡ entry_at (get_elem? hexes i) (get_elem? names (k + i))
get_elem?-entries [] names k i = refl
get_elem?-entries (hex ∷ hexes) names k zero =
    let e : k ≡ k + 0 = omega arith in ap (λ j. some (entry hex (get_elem? names j))) e
get_elem?-entries (hex ∷ hexes) names k (suc i) =
    let e : suc k + i ≡ k + suc i = omega arith in
    get_elem?-entries hexes names (suc k) i
    ∙ ap (λ j. entry_at (get_elem? hexes i) (get_elem? names j)) e

-- The i-th entry is made of the i-th input and the i-th name, where there are that many names, and
-- there is one for each input.
pub get_elem?-decode_hex_big_number_input :
    (inputs : List (Option Text)) (names : List Text) (i : ℕ)
    → get_elem? (decode_hex_big_number_input inputs names) i
      ≡ entry_at (get_elem? inputs i) (get_elem? names i)
unfolding decode_hex_big_number_input
get_elem?-decode_hex_big_number_input inputs names i =
    ap (λ es. get_elem? es i) (push_entries-entries inputs names 0 [])
    ∙ get_elem?-entries inputs names 0 i
    ∙ (let e : 0 + i ≡ i = omega arith in
        ap (λ j. entry_at (get_elem? inputs i) (get_elem? names j)) e)

-- `logged` reads the collection by hash: an upsert sets what is under its hash, and nothing else.
pub record IsLogStore {W : Type 0} (model : TransactionModel W)
    (logged : W → Text → Option TransactionLog) : Type 0 where
  pub sets :
      (hash : Text) (log : TransactionLog) (w v : W)
      → model.upsert hash log w ≡ ok tt v
      → logged v hash ≡ some log
  pub keeps :
      (hash other : Text) (log : TransactionLog) (w v : W)
      → model.upsert hash log w ≡ ok tt v
      → other ≢ hash
      → logged v other ≡ logged w other

-- The log of an item of the explorer's answer.
abbrev pub logged_item : (Text → Decoded) → ScannedTransaction → TransactionLog
logged_item decode item = record {
  hash = item.hash;
  block_number = item.block_number;
  time_stamp = item.time_stamp;
  method = (decode item.input).method;
  inputs = entries (decode item.input).inputs (decode item.input).names 0;
  address = item.from;
  from = item.from;
  to = item.to;
  link_bsc = txt "https://testnet.bscscan.com/tx/" ++ item.hash;
}

-- The first block to ask for.
abbrev pub IsNextBlock : Option ℕ → ℕ → Type 0
IsNextBlock latest block =
    ((latest ≡ none) × (block ≡ 0)) ⊎ ((n : ℕ) × (latest ≡ some n) × (block ≡ n + 1))

start_block-IsNextBlock : (latest : Option ℕ) → IsNextBlock latest (start_block latest)
start_block-IsNextBlock none = inl (refl, refl)
start_block-IsNextBlock (some n) = inr (n, refl, refl)

module _ {W : Type 0} (model : TransactionModel W) (decode : Text → Decoded)
    (fetch_from : ℕ → Io W (List ScannedTransaction)) (logged : W → Text → Option TransactionLog)
    (store : IsLogStore model logged) where
  log_of-logged_item :
      (item : ScannedTransaction) → log_of model decode fetch_from item ≡ logged_item decode item
  unfolding log_of decode_hex_big_number_input
  log_of-logged_item item =
      rw (push_entries-entries (decode item.input).inputs (decode item.input).names 0 []) refl

  store_item-logged :
      (item : ScannedTransaction) (w v : W)
      → store_item model decode fetch_from item w ≡ ok tt v
      → logged v item.hash ≡ some (logged_item decode item)
  unfolding store_item
  store_item-logged item w v h = store.sets item.hash _ w v h ∙ ap some (log_of-logged_item item)

  for_each-keeps :
      (items : List ScannedTransaction) (hash : Text) (w v : W)
      → for_each items (store_item model decode fetch_from) w ≡ ok tt v
      → All (λ i. hash ≢ i.hash) items
      → logged v hash ≡ logged w hash
  unfolding for_each store_item
  for_each-keeps [] hash w v h others = let e : w ≡ v = cc in ap (λ x. logged x hash) (sym e)
  for_each-keeps (x ∷ xs) hash w v h (here, later) =
      let (_, u, e, rest) = bind-eq-ok (store_item model decode fetch_from x w) _ h in
      for_each-keeps xs hash u v rest later ∙ store.keeps x.hash hash _ w u e here

  for_each-logged :
      (before after : List ScannedTransaction) (item : ScannedTransaction) (w v : W)
      → for_each (before ++ item ∷ after) (store_item model decode fetch_from) w ≡ ok tt v
      → All (λ i. item.hash ≢ i.hash) after
      → logged v item.hash ≡ some (logged_item decode item)
  unfolding for_each
  for_each-logged [] after item w v h others =
      let (_, u, e, rest) = bind-eq-ok (store_item model decode fetch_from item w) _ h in
      for_each-keeps after item.hash u v rest others ∙ store_item-logged item w u e
  for_each-logged (x ∷ before) after item w v h others =
      let (_, u, e, rest) = bind-eq-ok (store_item model decode fetch_from x w) _ h in
      for_each-logged before after item u v rest others

  -- If an upsert that ends sets what is under its hash and nothing else, and the job ends without an
  -- exception, then it asked the explorer from the block behind the latest stored one on, or from 0 on
  -- where none is stored, and under the hash of each item of the answer the log of the last item with
  -- that hash is stored: its block, time, sender, receiver and link, and the decoded method and inputs,
  -- the i-th with the i-th name.
  pub transaction_log_job-Stored :
      (w v : W)
      → transaction_log_job model decode fetch_from w ≡ ok tt v
      → (latest : Option ℕ) × (block : ℕ) × (u : W) × (result : List ScannedTransaction) × (u' : W)
        × (model.latest_block_number w ≡ ok latest u)
        × IsNextBlock latest block
        × (fetch_from block u ≡ ok result u')
        × ((before after : List ScannedTransaction) (item : ScannedTransaction)
            → result ≡ before ++ item ∷ after
            → All (λ i. item.hash ≢ i.hash) after
            → logged v item.hash ≡ some (logged_item decode item))
  unfolding transaction_log_job
  transaction_log_job-Stored w v h =
      let (latest, u, e, h1) = bind-eq-ok (model.latest_block_number w) _ h in
      let (result, u', f, h2) = bind-eq-ok (fetch_from (start_block latest) u) _ h1 in
      (
        latest,
        start_block latest,
        u,
        result,
        u',
        e,
        start_block-IsNextBlock latest,
        f,
        λ before after item split others.
            for_each-logged before after item u' v
              (subst (λ xs. for_each xs (store_item model decode fetch_from) u' ≡ ok tt v) split h2)
              others,
      )
