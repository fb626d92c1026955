-- ===== src/Tests/Services.antt =====
-- The addresses of a scan, notifications and subscribers.
use vnst_be.Utils.Pagination.{PaginationQuery, transform_pagination}
use vnst_be.Merchants.Queries.{ContributionQuery, LiquidityQuery}
use vnst_be.Base.{
  ℕ, text_eq, zero, suc, ◌≡◌, refl, sym, ap, true, false, Option, none, some, List, [], ◌∷◌, Text,
  txt, ok, thrown, Result,
}
use vnst_be.Schema.Chains.{bnb, bsc}
use vnst_be.Schema.Amount.{zero_amount}
use vnst_be.Schema.Notification.{Notification, mint}
use vnst_be.Schema.Merchant.{MerchantSubscriber}
use vnst_be.External.Infra.{Outside, number}
use vnst_be.Wallets.Controller.{TokenPayload}
use vnst_be.EventLogs.Parse.{unique, unique_from, field, field_text}
use vnst_be.Notifications.OwnerLaws.{Update, put_notification-Update}
use vnst_be.Merchants.Subscriber.{
  MerchantSubscriberDto, already_exists, save_merchant_subscriber, save_by_email, create_new,
}
use vnst_be.Merchants.SubscriberLaws.{Keeps, save_merchant_subscriber_once}
use vnst_be.EventLogs.Scan.{
  scan_steps, first_block, cached_from_block, stored_from_block, scan_rounds, scan_range,
  queue_collected, add_jobs, finish_scan, collect,
}
use vnst_be.Schema.EventLog.{EventLog, text}
use vnst_be.Tests.World.{World, world, outside}

abbrev addresses : List (Option Text)
addresses = some (txt "0xa") ∷ some (txt "0xb") ∷ some (txt "0xa") ∷ none ∷ []

abbrev user : TokenPayload
user = record { id = txt "a"; wallet_address = txt "0xa"; network = bnb }

abbrev notification : Notification
notification = record {
  id = txt "n";
  wallet = txt "b";
  type = mint;
  metadata = record {
    amount_in = zero_amount;
    amount_out = zero_amount;
    transaction_hash = none;
    timestamp = 1;
  };
  read = false;
}

-- The only notification is one of another wallet.
abbrev others : Outside World
others = record outside {
  notifications = record outside.notifications { find_by_id = λ id w. ok (some notification) w };
}

put_notification-Update_example : Update others user (txt "n") true world
put_notification-Update_example = put_notification-Update others user (txt "n") true world

abbrev subscriber : MerchantSubscriber
subscriber = record {
  id = txt "s";
  name = txt "shark";
  email = some (txt "a@b.io");
  telegram_id = none;
}

-- A database that answers with its first subscriber.
abbrev first_subscriber : ℕ → Option MerchantSubscriber
first_subscriber zero = none
first_subscriber (suc n) = some subscriber

abbrev subscribing : Outside World
subscribing = record outside {
  subscribers = record {
    find_one = λ f w. ok (first_subscriber w.sent) w;
    create = λ n w. ok subscriber (record w { sent = suc w.sent });
  };
}

abbrev sent_of : Result World MerchantSubscriber → ℕ
sent_of (ok r v) = v.sent
sent_of (thrown e v) = v.sent

subscribing-Keeps : Keeps subscribing
subscribing-Keeps n w r v h =
    let e : v.sent ≡ suc w.sent = sym (ap sent_of h) in
    ((subscriber, v, rw e refl), (subscriber, v, rw e refl))

abbrev dto : MerchantSubscriberDto
dto = record { name = txt "shark"; email = some (txt "a@b.io"); telegram_id = none }

first_saved :
    save_merchant_subscriber subscribing dto world ≡ ok subscriber (record world { sent = 1 })
unfolding save_merchant_subscriber save_by_email create_new
first_saved = refl

save_merchant_subscriber_once_example :
    (u : World) × (save_merchant_subscriber subscribing dto (record world { sent = 1 })
      ≡ thrown already_exists u)
save_merchant_subscriber_once_example =
    save_merchant_subscriber_once subscribing dto world subscriber (record world { sent = 1 })
      subscribing-Keeps first_saved

abbrev pub mint_log : EventLog
mint_log = record {
  address = txt "0xc";
  raw_data = [];
  event = txt "EMint";
  return_values = (txt "0", text (txt "0xA")) ∷ [];
  topics = [];
  block_hash = none;
  block_number = some 1;
  log_index = some 0;
  raw = none;
  signature = none;
  transaction_hash = none;
  transaction_index = none;
  chain_id = bsc;
}

pub first_value : field_text (field (txt "0") mint_log.return_values) ≡ some (txt "0xA")
unfolding field text_eq
first_value = refl

abbrev scanned : World
scanned = record world { cached = some (number 7000) }

scan_done :
    scan_steps outside 6000 2 (record world { cached = some (number 6000) }) ≡ ok true scanned
unfolding scan_steps first_block cached_from_block stored_from_block scan_rounds scan_range
    finish_scan queue_collected add_jobs unique unique_from collect
scan_done = refl

abbrev second_page : PaginationQuery
second_page = record { page = 2; limit = 10; sort = none; skip = 0 }

abbrev contributions : ContributionQuery
contributions = record { pagination = second_page; merchant = none; from = none; to = none }

abbrev supports : LiquidityQuery
supports = record {
  pagination = transform_pagination second_page;
  merchant = none;
  chain_id = none;
  token = none;
  type = none;
  from = none;
  to = none;
}
