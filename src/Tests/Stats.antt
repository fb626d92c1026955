-- ===== src/Tests/Stats.antt =====
-- The statistics of two small databases.
use vnst_be.Base.{
  ℕ, ◌≢◌, any, false, ◌-◌, ◌≡◌, refl, Option, none, some, List, [], ◌∷◌, Text, txt, ok,
}
use vnst_be.Schema.Chains.{bsc, bnb, ton}
use vnst_be.Schema.Amount.{format_units}
use vnst_be.Schema.Signed.{pos, sub_ℕ}
use vnst_be.Schema.EventLog.{EventLog, FieldValue, text, bigint, bool, js_number, null, array}
use vnst_be.Schema.TonTransaction.{TonTransaction, TransactionType, mint, redeem, transfer}
use vnst_be.External.Aggregate.{Stage, match_equal, match_in, add_fields, group_sum, project}
use vnst_be.External.Groups.{TypeGroup}
use vnst_be.External.Infra.{Outside}
use vnst_be.Utils.ParseInt.{digits_from}
use vnst_be.Ton.Statistics.{type_eq}
use vnst_be.App.{Stats, get_stats}
use vnst_be.App.UnitLaws.{IsUnits, IsSignedUnits}
use vnst_be.App.StatsLaws.{amount_in_of, amount_out_of, groups_of, named, IsCounted, get_stats-bnb}
use vnst_be.App.TonStatsLaws.{of_type, total_in, total_out, IsGrouping, IsTonCounted, get_stats-ton}
use vnst_be.Tests.World.{World, world, outside}

-- The number that a stored text shows.
abbrev amount : Option FieldValue → ℕ
amount none = 0
amount (some (bigint n)) = n
amount (some (bool b)) = 0
amount (some (js_number n)) = n
amount (some null) = 0
amount (some (array vs)) = 0
amount (some (text t)) = elim (digits_from 10 none t) [ none ↦ 0 | some n ↦ n ]

abbrev stored : Text → Text → Text → EventLog
stored event amount_in amount_out = record {
  address = txt "0xc";
  raw_data = [];
  event = event;
  return_values = (txt "1", text amount_in) ∷ (txt "2", text amount_out) ∷ [];
  topics = [];
  block_hash = none;
  block_number = some 1;
  log_index = some 0;
  raw = none;
  signature = none;
  transaction_hash = none;
  transaction_index = none;
  chain_id = bsc;
}

abbrev logs : List EventLog
logs = stored (txt "EMint") (txt "2") (txt "50") ∷ stored (txt "ERedeem") (txt "60") (txt "1") ∷ []

abbrev event_of : List Stage → Text
event_of [] = []
event_of (match_equal name event ∷ stages) = event
event_of (match_in name values ∷ stages) = []
event_of (add_fields fields ∷ stages) = []
event_of (group_sum id sums ∷ stages) = []
event_of (project fields ∷ stages) = []

abbrev event_database : Outside World
event_database = record outside {
  event_logs = record outside.event_logs {
    aggregate = λ stages w. ok (groups_of amount (named (event_of stages) logs)) w;
  };
}

event_database-IsCounted : IsCounted event_database amount (λ w. logs)
event_database-IsCounted = record {
  aggregates = λ event w. refl;
  counts = λ f w. (0, refl);
  holds = λ f w. (0, refl);
  pools = λ w. (1, refl);
}

get_stats-bnb_example :
    let minted = named (txt "EMint") logs in
    let redeemed = named (txt "ERedeem") logs in
    (s : Stats) × (get_stats event_database (λ key w. ok 3 w) bnb world ≡ ok s world)
    × IsUnits 18 s.minted (amount_out_of amount minted)
    × IsUnits 18 s.redeemed (amount_in_of amount redeemed)
    × IsSignedUnits 18 s.total_vnst
        (pos (amount_out_of amount minted - amount_in_of amount redeemed))
    × IsSignedUnits 18 s.total_usdt
        (pos (amount_in_of amount minted - amount_out_of amount redeemed))
get_stats-bnb_example =
    get_stats-bnb event_database amount event_database-IsCounted (λ key w. ok 3 w) world

abbrev transaction : TransactionType → ℕ → ℕ → TonTransaction
transaction type amount_in amount_out = record {
  type = type;
  hash = [];
  from_address = [];
  to_address = [];
  payload = record {
    in_amount = format_units amount_in 6;
    out_amount = format_units amount_out 6;
    query_id = 0;
  };
  opcode = 0;
  timestamp = 0;
  lt = [];
}

abbrev transactions : List TonTransaction
transactions = transaction mint 2 50 ∷ transaction redeem 60 1 ∷ transaction mint 1 25 ∷ []

abbrev group : TransactionType → ℕ → TypeGroup
group type count = record {
  type = type;
  count = count;
  total_amount_in = format_units (total_in type transactions) 6;
  total_amount_out = format_units (total_out type transactions) 6;
}

-- The redemptions come first.
abbrev type_groups : List TypeGroup
type_groups = group redeem 1 ∷ group mint 2 ∷ []

type_groups-covers :
    (t : TransactionType)
    → t ≢ transfer
    → any (λ g. type_eq g.type t) type_groups ≡ false
    → of_type t transactions ≡ []
type_groups-covers mint other missing = cc
type_groups-covers redeem other missing = cc
type_groups-covers transfer other missing = absurd (other refl)

type_groups-IsGrouping : IsGrouping type_groups transactions
type_groups-IsGrouping = record {
  sums = ((refl, refl), ((refl, refl), tt));
  covers = type_groups-covers;
}

abbrev transaction_database : Outside World
transaction_database = record outside {
  ton_transactions = record outside.ton_transactions { aggregate = λ stages w. ok type_groups w };
}

transaction_database-IsTonCounted : IsTonCounted transaction_database (λ w. transactions)
transaction_database-IsTonCounted = record {
  aggregates = λ w scaled. (type_groups, refl, type_groups-IsGrouping);
  counts = λ ts w. (0, refl);
  holds = λ f w. (0, refl);
}

get_stats-ton_example :
    (s : Stats) × (v : World) × (get_stats transaction_database (λ key w. ok 3 w) ton world
      ≡ ok s v)
    × IsUnits 6 s.minted (total_out mint transactions)
    × IsUnits 6 s.redeemed (total_in redeem transactions)
    × IsSignedUnits 6 s.total_vnst
        (sub_ℕ (total_out mint transactions) (total_in redeem transactions))
    × IsSignedUnits 6 s.total_usdt
        (sub_ℕ (total_in mint transactions) (total_out redeem transactions))
get_stats-ton_example =
    get_stats-ton transaction_database transaction_database-IsTonCounted (λ key w. ok 3 w) world
      ((refl, refl), ((refl, refl), ((refl, refl), tt)))
