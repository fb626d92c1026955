-- ===== src/Tests/Ton.antt =====
-- Proofs, transactions, the subscription and the schedule, over cells that are lists of words.
use vnst_be.Base.{
  inl, zero, suc, ◌*◌, ◌+◌, ap, length, decimal, digits_before, ℕ, to_lower_case, ◌≡◌, ◌<◌, ◌≤◌,
  refl, true, false, Option, none, some, List, [], ◌∷◌, ◌==◌, take, drop, for_each, All,
  if◌then◌else◌, arith, Text, txt, text_eq, ok, thrown, error,
}
use vnst_be.Ton.WalletKey.{key_bytes}
use vnst_be.Ton.WalletKeyLaws.{big_endian, big_endian-key_bytes}
use vnst_be.Utils.ParseInt.{digit_value, plain, negative}
use vnst_be.Schema.TonTransaction.{TransactionParsed, mint}
use vnst_be.Schema.Amount.{format_units}
use vnst_be.Wallets.Service.{find_by_wallet_address}
use vnst_be.Ton.Cells.{Cells}
use vnst_be.Ton.WalletsData.{
  try_parse_public_key, parse_public_key, first_key, load_data, load_wallet_v1_data,
}
use vnst_be.Ton.Bytes.{
  uint32_be, uint32_le, uint64_le, from_hex, write_uint32_be, write_uint64_le, write_uint32_le,
}
use vnst_be.Ton.Proof.{
  CheckProof, TonCrypto, check_proof, check_steps, public_key_of, check_address, check_time,
  is_fresh, verify_proof,
}
use vnst_be.Ton.MessageLaws.{proof_message-injective}
use vnst_be.Ton.ProofLaws.{
  IsProven, IsProven-check_proof, check_proof-IsProven, check_proof-masterchain,
}
use vnst_be.Ton.Parse.{
  parse_message, parse_body, parse_notify, parse_operation, find_message, parse_out, read_out,
  parsed, internal, generic_vm, Transaction, parse_transaction, jetton_notify, vnst_mint,
  jetton_transfer_internal,
}
use vnst_be.Ton.ParseLaws.{IsRecord, parse_transaction-IsRecord}
use vnst_be.Ton.Schedule.{
  JettonWallet, JettonClient, sync_wallet, sync_balances, store_balance, owner_of, find_owner,
}
use vnst_be.Ton.ScheduleLaws.{sync_balances-for_each}
use vnst_be.Ton.ScheduleLaws.{IsShort}
use vnst_be.Ton.Subscription.{TonClient, on_transactions, subscribe_to_transaction_update}
use vnst_be.Ton.SubscriptionLaws.{newest, Feeds, subscribe-on_transactions}
use vnst_be.Ton.Ticker.{fired, returned, threw, stopped, tick, step, run}
use vnst_be.Ton.TickerLaws.{run-single, run-threw}
use vnst_be.Tests.World.{World, world, wallet_a, outside}

-- One word of a slice.
abbrev word : {A : Type 0} → (ℕ → A) → List ℕ → Option (A × List ℕ)
word f [] = none
word f (x ∷ s) = some (f x, s)

abbrev pub words : Cells (List ℕ) (List ℕ)
words = record {
  begin_parse = λ c. c;
  load_uint = λ n s. word (λ x. x) s;
  load_buffer = λ n s. word (λ x. x ∷ []) s;
  load_bit = λ s. word (λ x. x == 1) s;
  load_coins = λ s. word (λ x. x) s;
  load_ref = λ s. word (λ x. x ∷ []) s;
  load_maybe_ref = λ s. word (λ x. none) s;
  load_address = λ s. word (λ x. x ∷ []) s;
  equals = text_eq;
}

-- A signature is the message itself, and an address shows one byte of its text.
abbrev pub crypto : TonCrypto World (List ℕ)
crypto = record {
  init_code = λ v. 1 ∷ [];
  load_state_init = λ t. some (record { code = some (1 ∷ []); data_cell = some (0 ∷ 0xab ∷ []) });
  last_block = λ w. ok 1 w;
  get_public_key = λ seqno a w. thrown (error []) w;
  parse_address = λ t. some (record { work_chain = plain 0; hash = t });
  contract_address = λ wc state. record { work_chain = wc; hash = txt "0:a" };
  address_equals = λ a b. text_eq a.hash b.hash;
  from_base64 = λ t. t;
  utf8 = λ t. t;
  sha256 = λ m. [];
  verify = λ m s k. some (text_eq s k);
}

abbrev pub payload : CheckProof
payload = record {
  address = txt "0:a";
  network = txt "-3";
  public_key = txt "ab";
  proof = record {
    timestamp = 1;
    domain = record { length_bytes = 7; value = txt "vnst.io" };
    payload = txt "token";
    signature = 0xab ∷ [];
    state_init = [];
  };
}

pub payload_accepted : check_proof outside.timer words crypto payload world ≡ ok true world
unfolding check_proof check_steps public_key_of try_parse_public_key parse_public_key first_key
    text_eq load_data load_wallet_v1_data from_hex digit_value check_address check_time is_fresh
    verify_proof write_uint32_be write_uint64_le write_uint32_le
payload_accepted = refl

check_proof-IsProven_example : IsProven outside.timer words crypto payload world world
check_proof-IsProven_example =
    check_proof-IsProven outside.timer words crypto payload world world payload_accepted

-- Its wallet shows the key 0xab, and the clock stands at 1000 milliseconds.
abbrev proven : IsProven outside.timer words crypto payload world world
unfolding try_parse_public_key parse_public_key first_key text_eq load_data load_wallet_v1_data
    from_hex digit_value write_uint32_be write_uint64_le write_uint32_le
proven = record {
  state = record { code = some (1 ∷ []); data_cell = some (0 ∷ 0xab ∷ []) };
  public_key = 0xab ∷ [];
  wanted = record { work_chain = plain 0; hash = txt "0:a" };
  before = world;
  now = 1000;
  parsed_state = refl;
  key_source = inl (refl, refl);
  reads = refl;
  same_key = refl;
  parsed_address = refl;
  same_address = refl;
  domain = refl;
  fresh = omega arith;
  signed = record {
    wc = uint32_be 0;
    ts = uint64_le 1;
    dl = uint32_le 7;
    wrote_wc = refl;
    wrote_ts = refl;
    wrote_dl = refl;
    verified = refl;
  };
}

IsProven-check_proof_example : check_proof outside.timer words crypto payload world ≡ ok true world
IsProven-check_proof_example =
    IsProven-check_proof outside.timer words crypto payload world world proven

abbrev masterchain : TonCrypto World (List ℕ)
masterchain = record crypto {
  parse_address = λ t. some (record { work_chain = negative 1; hash = t });
}

check_proof-masterchain_example :
    (v : World) × (check_proof outside.timer words masterchain payload world ≡ ok false v)
check_proof-masterchain_example =
    check_proof-masterchain outside.timer words masterchain payload
      (record { work_chain = negative 1; hash = txt "0:a" }) 0 world refl (λ state. refl)

abbrev basechain : ℕ
basechain = 0

proof_message-injective_example :
    (basechain ≡ basechain)
    × (txt "0:a" ≡ txt "0:a")
    × (txt "vnst.io" ≡ txt "vnst.io")
    × (payload.proof.timestamp ≡ payload.proof.timestamp)
    × (txt "token" ≡ txt "token")
proof_message-injective_example =
    proof_message-injective outside.timer words crypto basechain basechain (txt "0:a") (txt "0:a")
      payload.proof payload.proof (omega arith) (omega arith) refl refl refl (omega arith)
      (omega arith) (omega arith) (omega arith) refl

abbrev pub mint_transaction : Transaction (List ℕ)
mint_transaction = record {
  in_message =
      some (record { info = internal 77; body = jetton_notify ∷ 5 ∷ 100 ∷ vnst_mint ∷ 97 ∷ [] });
  description = generic_vm;
  out_messages =
      record { info = internal 78; body = jetton_transfer_internal ∷ 5 ∷ 2500 ∷ 99 ∷ 97 ∷ [] } ∷ [];
  hash_hex = txt "aa";
  hash_base64 = txt "qg";
  lt = 2;
}

abbrev pub recorded : TransactionParsed
recorded = record {
  type = mint;
  hash = txt "aa";
  from_address = 97 ∷ [];
  to_address = 97 ∷ [];
  payload = record {
    in_amount = format_units 100 6;
    out_amount = format_units 2500 6;
    query_id = 5;
  };
  opcode = jetton_notify;
  timestamp = 77;
  lt = decimal 2;
}

pub mint_recorded : parse_transaction words mint_transaction ≡ some (some recorded)
unfolding parse_transaction parse_message parse_body parse_notify parse_operation find_message
    parse_out read_out parsed
mint_recorded = refl

parse_transaction-IsRecord_example : IsRecord words mint_transaction recorded
parse_transaction-IsRecord_example =
    parse_transaction-IsRecord words mint_transaction recorded mint_recorded

abbrev jetton_wallets : List JettonWallet
jetton_wallets =
    record { balance = 9; owner = some (txt "0xA") }
    ∷ record { balance = 4; owner = some (txt "0xa") }
    ∷ []

abbrev pub toncenter : JettonClient World
toncenter limit offset owners w = ok (take limit (drop offset jetton_wallets)) w

pub toncenter-IsShort : IsShort toncenter 1
toncenter-IsShort = record { positive = omega arith; short = few }
  where
    drop_nil : (n : ℕ) → drop {A = JettonWallet} n [] ≡ []
    drop_nil zero = refl
    drop_nil (suc n) = refl

    few :
        (owner : Text) (offset : ℕ) (w v : World) (xs : List JettonWallet)
        → 1 * 100 ≤ offset + 100
        → toncenter 101 offset (some (owner ∷ [])) w ≡ ok xs v
        → length xs ≤ 100
    few owner zero w v xs behind e =
        let listed : jetton_wallets ≡ xs = cc in omega (arith, ap length listed)
    few owner (suc zero) w v xs behind e =
        let listed : drop 1 jetton_wallets ≡ xs = cc in omega (arith, ap length listed)
    few owner (suc (suc n)) w v xs behind e =
        let listed : take 101 (drop n []) ≡ xs = cc in
        omega (arith, ap length listed, ap (λ l. length (take 101 l)) (drop_nil n))

abbrev synced : World
synced = record world { wallet = some (record wallet_a { balance = format_units 4 6 }) }

both_synced : for_each jetton_wallets (sync_wallet outside toncenter) world ≡ ok tt synced
unfolding for_each sync_wallet owner_of find_owner store_balance find_by_wallet_address
    to_lower_case text_eq
both_synced = refl

sync_balances-for_each_example : sync_balances outside toncenter 1 none world ≡ ok true synced
sync_balances-for_each_example =
    sync_balances-for_each outside toncenter none jetton_wallets (λ limit offset w. refl)
      (λ ms w. refl) 1 world synced (omega arith) (omega arith) both_synced

abbrev older_transaction : Transaction (List ℕ)
older_transaction = record mint_transaction { lt = 1; out_messages = [] }

abbrev pub history : List (Transaction (List ℕ))
history = mint_transaction ∷ older_transaction ∷ []

-- The node gives what is behind the transaction that the request names.
abbrev behind : Option Text → List (Transaction (List ℕ))
behind none = history
behind (some t) = if text_eq t (decimal 2) then older_transaction ∷ [] else []

abbrev pub node : TonClient World (List ℕ)
node q w = ok (behind q.lt) w

pub node-Feeds : Feeds outside words toncenter node 1 none history
unfolding text_eq decimal digits_before
node-Feeds [] after w e = rw e refl
node-Feeds (x ∷ []) after w e =
    let same : x ≡ mint_transaction = cc in
    let rest : after ≡ older_transaction ∷ [] = cc in rw (same, rest) refl
node-Feeds (x ∷ y ∷ []) after w e =
    let same : y ≡ older_transaction = cc in let rest : after ≡ [] = cc in rw (same, rest) refl
node-Feeds (x ∷ y ∷ z ∷ before) after w e = absurd cc

subscribe-on_transactions_example :
    (v : World) × (on_transactions outside words toncenter node 1 history world ≡ ok true v)
    × (subscribe_to_transaction_update outside words toncenter node 1 3 none world
        ≡ ok (some (newest outside words toncenter node 1 none history)) v)
subscribe-on_transactions_example =
    subscribe-on_transactions outside words toncenter node 1 none history node-Feeds
      toncenter-IsShort 3 world (omega arith)

run-single_example : (run stopped (fired ∷ fired ∷ returned ∷ fired ∷ [])).running ≤ 1
run-single_example = run-single (fired ∷ fired ∷ returned ∷ fired ∷ [])

one_running : 0 < (run stopped (fired ∷ [])).running
unfolding run step tick
one_running = omega arith

run-threw_example :
    (run (step (run stopped (fired ∷ [])) threw) (fired ∷ fired ∷ [])).started
    ≡ (run stopped (fired ∷ [])).started
run-threw_example = run-threw (fired ∷ []) (fired ∷ fired ∷ []) one_running

big_endian-key_bytes_example :
    (length (key_bytes 0xabc) ≡ 32)
    × All (λ b. b < 256) (key_bytes 0xabc)
    × (big_endian (key_bytes 0xabc) ≡ 0xabc)
big_endian-key_bytes_example = big_endian-key_bytes 0xabc (omega arith)
