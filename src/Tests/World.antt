-- ===== src/Tests/World.antt =====
-- A world outside of the program: a clock, one stored wallet, the cache, the stored events
-- and transactions, and counters of what was sent.
use vnst_be.Base.{
  ℕ, suc, ◌+◌, ◌≡◌, refl, true, false, Option, none, some, List, [], ◌∷◌, ◌++◌, Text, txt,
  text_eq_refl, arith, option_text_eq, if◌then◌else◌, ok, thrown, error, inl,
}
use vnst_be.Schema.Chains.{bnb}
use vnst_be.Schema.Amount.{zero_amount}
use vnst_be.Schema.Wallet.{Wallet}
use vnst_be.Schema.EventLog.{EventLog}
use vnst_be.Schema.TonTransaction.{TonTransaction}
use vnst_be.External.Env.{Env, load_env}
use vnst_be.External.Models.{WalletModel, WalletFilter}
use vnst_be.External.Infra.{Outside, CacheValue, Job, Mail}
use vnst_be.Wallets.EmailLaws.{WalletStore}

pub record World : Type 0 where
  pub time : ℕ
  pub wallet : Option Wallet
  pub cached : Option CacheValue
  pub queued : List Job
  pub events : List EventLog
  pub sent : ℕ
  pub outbox : List Mail
  pub archive : List TonTransaction

abbrev pub wallet_a : Wallet
wallet_a = record {
  id = txt "a";
  email = none;
  wallet_address = txt "0xa";
  enabled_noti = true;
  balance = zero_amount;
  nonce = some (txt "n");
  otp = none;
  otp_created_time = none;
  tmp_email = none;
  network = bnb;
  is_verified = false;
}

abbrev pub world : World
world = record {
  time = 1000;
  wallet = some wallet_a;
  cached = none;
  queued = [];
  events = [];
  sent = 0;
  outbox = [];
  archive = [];
}

abbrev pub show_digit : ℕ → Text
show_digit n = (48 + n) ∷ []

abbrev matching : WalletFilter → Option Wallet → Option Wallet
matching f none = none
matching f (some w) =
    if option_text_eq f.wallet_address (some w.wallet_address) then some w else none

abbrev pub env : Env
env = load_env (λ key. some key) (λ t. 0) (λ t. txt "0:c")

abbrev pub wallets : WalletModel World
wallets = record {
  find_one = λ f w. ok (matching f w.wallet) w;
  find_by_id = λ id w. ok w.wallet w;
  find = λ w. ok [] w;
  count = λ f w. ok 0 w;
  create = λ dto w. ok wallet_a w;
  save = λ x w. ok x (record w { wallet = some x });
  find_one_and_update = λ f u b w. ok tt w;
}

abbrev pub outside : Outside World
outside = record {
  env = env;
  library = record {
    format_date = show_digit;
    is_ethereum_address = λ t. true;
    ton_friendly = λ t. some t;
    ton_raw = λ t. some t;
  };
  wallets = wallets;
  notifications = record {
    create = λ n w. thrown (error []) w;
    find = λ f q w. ok [] w;
    count = λ f w. ok 0 w;
    find_by_id = λ id w. ok none w;
    find_by_id_and_update = λ id b c w. ok none w;
  };
  event_logs = record {
    update_one = λ k e b w. ok (some (txt "id")) w;
    latest_block_number = λ w. ok none w;
    find = λ f q w. ok [] w;
    count = λ f w. ok 0 w;
    aggregate = λ stages w. ok [] w;
  };
  ton_transactions = record {
    save = λ t w. ok t (record w { sent = suc w.sent });
    find_latest = λ w. ok none w;
    find = λ f q w. ok [] w;
    count = λ f w. ok 0 w;
    count_types = λ ts w. ok 0 w;
    aggregate = λ stages w. ok [] w;
  };
  subscribers = record { find_one = λ f w. ok none w; create = λ n w. thrown (error []) w };
  queue = record { add_bulk = λ jobs w. ok tt (record w { queued = w.queued ++ jobs }) };
  cache = record {
    get = λ key w. ok w.cached w;
    set = λ key value ttl w. ok tt (record w { cached = some value });
    del = λ key w. ok tt (record w { cached = none });
  };
  mailer = record {
    send = λ mail w. ok tt (record w { sent = suc w.sent; outbox = w.outbox ++ mail ∷ [] });
  };
  contract = record {
    address = txt "0xc";
    block_number = λ w. ok 7000 w;
    balance_of = λ a w. ok 5 w;
    market_price = λ w. ok 1 w;
    operation_pool = λ w. ok 1 w;
    total_supply = λ w. ok 1 w;
    is_verified = λ a w. ok true w;
    get_past_events = λ q w. ok [] w;
  };
  timer = record { sleep = λ ms w. ok tt w; now = λ w. ok w.time w };
  random = record { uuid = λ w. ok (txt "uuid") w; digit = λ w. ok 7 w };
}

abbrev pub Stored : Wallet → World → Type 0
Stored x w = w.wallet ≡ some x

abbrev pub wallet_store : WalletStore outside Stored
wallet_store = record {
  time = λ w. w.time;
  saves = λ x w. (x, record w { wallet = some x }, refl, refl, refl);
  finds = λ x w s. (w, rw (s, text_eq_refl x.wallet_address) refl, s, refl);
  reads_clock = λ w. (w, refl, refl, λ x s. s);
  draws = λ w. (7, w, refl, omega arith);
  mails =
      λ x mail w s. inl (record w { sent = suc w.sent; outbox = w.outbox ++ mail ∷ [] }, refl, s);
}
