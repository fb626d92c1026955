-- ===== src/Tests/TonStore.antt =====
-- The subscription over a collection of transactions.
use mathlib.Core.List.{Memᴰ}
use vnst_be.Base.{
  false, ◌+◌, ◌≢◌, any, Exception, Result, subst, ℕ, ◌≡◌, refl, ap, inl, inr, true, Option, none,
  some, List, [], ◌∷◌, ◌++◌, Text, txt, leb, leb→le, arith, decimal, if◌then◌else◌, ok, thrown,
  error, Bool-cases, All,
}
use vnst_be.Schema.Chains.{ton}
use vnst_be.Schema.Amount.{format_units}
use vnst_be.Schema.TonTransaction.{TonTransaction, TransactionType, mint, redeem, transfer}
use vnst_be.External.Groups.{TypeGroup}
use vnst_be.Ton.Statistics.{type_eq}
use vnst_be.App.{Stats, get_stats}
use vnst_be.App.UnitLaws.{IsUnits}
use vnst_be.App.TonStatsLaws.{of_type, total_in, total_out, IsTonCounted}
use vnst_be.App.UpdateLaws.{AreFresh, subscribe-get_stats}
use vnst_be.External.Infra.{Outside}
use vnst_be.Ton.Parse.{
  Transaction, parse_transaction, parse_message, parse_body, parse_notify, parse_operation,
  find_message, parse_out, read_out, parsed,
}
use vnst_be.Ton.Subscription.{TonClient, subscribe_to_transaction_update, first_indexed}
use vnst_be.Ton.SubscriptionLaws.{newest, Feeds}
use vnst_be.Ton.Stored.{is_stored, insert, insert_all, records, IsTonStore}
use vnst_be.Ton.StoredLaws.{IsUniqueStore, subscribe-insert_all, subscribe_again}
use vnst_be.Ton.InsertLaws.{IsLatest}
use vnst_be.Ton.RestartLaws.{IsTonArchive, subscribe-first_indexed}
use vnst_be.Tests.World.{World, world, outside}
use vnst_be.Tests.Ton.{
  words, mint_transaction, recorded, mint_recorded, toncenter, toncenter-IsShort, history, node,
  node-Feeds,
}

abbrev later : TonTransaction → Option TonTransaction → TonTransaction
later r none = r
later r (some t) = if leb t.timestamp r.timestamp then r else t

abbrev latest_of : List TonTransaction → Option TonTransaction
latest_of [] = none
latest_of (r ∷ rs) = some (later r (latest_of rs))

-- The group of a type.
abbrev group_of : TransactionType → List TonTransaction → TypeGroup
group_of type rows = record {
  type = type;
  count = 0;
  total_amount_in = format_units (total_in type rows) 6;
  total_amount_out = format_units (total_out type rows) 6;
}

abbrev archiving : Outside World
archiving = record outside {
  ton_transactions = record outside.ton_transactions {
    save = λ t w.
        if is_stored t.hash w.archive
        then thrown (error (txt "duplicate")) w
        else ok t (record w { archive = w.archive ++ t ∷ [] });
    find_latest = λ w. ok (latest_of w.archive) w;
    aggregate = λ stages w. ok (group_of redeem w.archive ∷ group_of mint w.archive ∷ []) w;
  };
}

abbrev archive_of : World → List TonTransaction
archive_of w = w.archive

archiving-IsTonStore : IsTonStore archiving toncenter archive_of
unfolding insert
archiving-IsTonStore = record {
  saves = λ p w. elim (Bool-cases (is_stored p.hash w.archive)) [
    | inl there ↦ rw there refl
    | inr missing ↦ rw missing refl
  ];
  finds = λ filter w. refl;
  keeps = λ wallet w. refl;
  adds = λ wallet w. refl;
  notifies = λ n w. refl;
  sends = λ mail w. refl;
  sleeps = λ ms w. refl;
  asks = λ limit offset owners w. refl;
}

latest_of-IsLatest : (rows : List TonTransaction) → IsLatest (latest_of rows) rows
latest_of-IsLatest [] = refl
latest_of-IsLatest (r ∷ rs) = go (latest_of rs) (latest_of-IsLatest rs)
  where
    go : (t : Option TonTransaction) → IsLatest t rs → IsLatest (some (later r t)) (r ∷ rs)
    go none e = (
      Memᴰ.head refl,
      λ x m. elim m [
        | Memᴰ.head same ↦
            let a : x.timestamp ≡ r.timestamp = ap (λ y. y.timestamp) same in omega arith
        | Memᴰ.tail n ↦ elim (subst (λ l. Memᴰ x l) e n) [ ]
      ],
    )
    go (some t) (found, greatest) = elim (Bool-cases (leb t.timestamp r.timestamp)) [
      | inl le ↦ rw le (
        Memᴰ.head refl,
        λ x m. elim m [
          | Memᴰ.head same ↦
              let a : x.timestamp ≡ r.timestamp = ap (λ y. y.timestamp) same in omega arith
          | Memᴰ.tail n ↦
              let a = greatest x n in let b = leb→le t.timestamp r.timestamp le in omega arith
        ],
      )
      | inr gt ↦ rw gt (
        Memᴰ.tail found,
        λ x m. elim m [
          | Memᴰ.head same ↦
              let a : x.timestamp ≡ r.timestamp = ap (λ y. y.timestamp) same in ground (arith, leb)
          | Memᴰ.tail n ↦ greatest x n
        ],
      )
    ]

archiving-IsTonArchive : IsTonArchive archiving toncenter archive_of
archiving-IsTonArchive = record {
  store = archiving-IsTonStore;
  latest = λ w. (latest_of w.archive, refl, latest_of-IsLatest w.archive);
}

subscribe-insert_all_example :
    (v : World) × (subscribe_to_transaction_update archiving words toncenter node 1 3 none world
      ≡ ok (some (newest archiving words toncenter node 1 none history)) v)
    × (v.archive ≡ insert_all [] (records words history))
    × All (λ p. is_stored p.hash v.archive ≡ true) (records words history)
subscribe-insert_all_example =
    subscribe-insert_all archiving words toncenter node 1 archiving-IsTonStore none history
      node-Feeds toncenter-IsShort 3 world (omega arith)

archiving-IsUniqueStore : IsUniqueStore archiving toncenter archive_of
archiving-IsUniqueStore = record {
  store = archiving-IsTonStore;
  refuses = λ p w h. (error (txt "duplicate"), rw h refl);
}

subscribe_again_example :
    (v : World) × (subscribe_to_transaction_update archiving words toncenter node 1 3 none world
      ≡ ok (some (newest archiving words toncenter node 1 none history)) v)
    × (subscribe_to_transaction_update archiving words toncenter node 1 3 none v
        ≡ ok (some (newest archiving words toncenter node 1 none history)) v)
subscribe_again_example =
    subscribe_again archiving words toncenter node 1 archiving-IsUniqueStore none history node-Feeds
      toncenter-IsShort 3 world (omega arith)

-- A node that fails behind its first page, and has nothing that is newer.
abbrev failing_behind :
    Option Text → Option Text → World → Result World (List (Transaction (List ℕ)))
failing_behind none none w = ok (mint_transaction ∷ []) w
failing_behind none (some lt) w = thrown (error (txt "timeout")) w
failing_behind (some to_lt) lt w = ok [] w

abbrev failing_node : TonClient World (List ℕ)
failing_node q w = failing_behind q.to_lt q.lt w

failing_node-Feeds : Feeds archiving words toncenter failing_node 1 (some (decimal 2)) []
failing_node-Feeds [] after w e = rw e refl
failing_node-Feeds (x ∷ before) after w e = absurd cc

subscribe-first_indexed_example :
    (e : Exception) × (u : World) × (subscribe_to_transaction_update archiving words toncenter
        failing_node 1 2 none world
      ≡ thrown e u)
    × (u.archive ≡ insert_all [] (recorded ∷ []))
    × (first_indexed archiving words toncenter failing_node u ≡ ok (some (decimal 2)) u)
    × (x : World) × (subscribe_to_transaction_update archiving words toncenter failing_node 1 1
          (some (decimal 2))
          u
        ≡ ok (some (some (decimal 2))) x)
    × (x.archive ≡ insert_all u.archive [])
subscribe-first_indexed_example =
    subscribe-first_indexed archiving words toncenter failing_node 1 archiving-IsTonArchive none
      mint_transaction [] [] recorded 0 1 world toncenter-IsShort refl
      (λ w. (error (txt "timeout"), w, refl, refl)) mint_recorded refl
      (λ r m. elim m [ inl m ↦ elim m [ ] | inr m ↦ elim m [ ] ]) failing_node-Feeds (omega arith)

covers_both :
    (rows : List TonTransaction) (t : TransactionType)
    → t ≢ transfer
    → any (λ g. type_eq g.type t) (group_of redeem rows ∷ group_of mint rows ∷ []) ≡ false
    → of_type t rows ≡ []
covers_both rows mint other missing = cc
covers_both rows redeem other missing = cc
covers_both rows transfer other missing = absurd (other refl)

archiving-IsTonCounted : IsTonCounted archiving archive_of
archiving-IsTonCounted = record {
  aggregates = λ w scaled. (
    group_of redeem w.archive ∷ group_of mint w.archive ∷ [],
    refl,
    record { sums = ((refl, refl), ((refl, refl), tt)); covers = covers_both w.archive },
  );
  counts = λ ts w. (0, refl);
  holds = λ f w. (0, refl);
}

history_fresh : AreFresh [] (records words history)
unfolding parse_transaction parse_message parse_body parse_notify parse_operation find_message
    parse_out read_out parsed
history_fresh = (refl, tt)

subscribe-get_stats_example :
    (v : World) × (s : Stats) × (x : World) × (subscribe_to_transaction_update archiving words
        toncenter node 1 3 none world
      ≡ ok (some (newest archiving words toncenter node 1 none history)) v)
    × (get_stats archiving (λ key w. ok 3 w) ton v ≡ ok s x)
    × IsUnits 6 s.minted (total_out mint [] + total_out mint (records words history))
    × IsUnits 6 s.redeemed (total_in redeem [] + total_in redeem (records words history))
subscribe-get_stats_example =
    subscribe-get_stats archiving words toncenter node (λ key w. ok 3 w) 1 archiving-IsTonStore
      archiving-IsTonCounted none history node-Feeds toncenter-IsShort 3 world (omega arith)
      history_fresh tt
