-- ===== src/EventLogs/Consumer.antt =====
-- src/modules/event-logs/event-logs.consumer.ts: the two jobs of the queue. `number` is `Number` of a
-- property of `returnValues`, a whole number.
use vnst_be.Base.{
  ℕ, true, false, ◌&&◌, Option, none, some, ◌++◌, Text, txt, text_eq, truthy, to_lower_case, trim,
  if◌then◌else◌, error, Io, pure, throw, ◌>>=◌, ◌>>◌, try_catch, when,
}
use vnst_be.Schema.Chains.{bnb}
use vnst_be.Schema.Amount.{Amount, from_wei}
use vnst_be.Schema.Wallet.{Wallet}
use vnst_be.Schema.Notification.{NotificationType, mint, redeem}
use vnst_be.Schema.EventLog.{EventLog, FieldValue, log_key}
use vnst_be.External.Models.{CreateNotification}
use vnst_be.External.Infra.{Outside, Job, update_balance, insert_event_log}
use vnst_be.Email.Service.{TransactionMessage, send_email_transaction}
use vnst_be.Wallets.Service.{find_by_wallet_address, create}
use vnst_be.Contract.{get_balance_of}
use vnst_be.Ton.Proof.{or_throw}
use vnst_be.EventLogs.Parse.{mint_event, redeem_event, field, field_text}

abbrev pub zero_address : Text
zero_address = txt "0x0000000000000000000000000000000000000000"

-- The kind of an event that is notified of: `NotificationEvents.includes(event)` and the `switch`.
unfoldable pub event_kind : Text → Option NotificationType
event_kind event =
    if text_eq event mint_event
    then some mint
    else if text_eq event redeem_event
    then some redeem
    else none

abbrev pub subject_of : NotificationType → Text
subject_of mint = txt "[VNST] Successfully Minted - "
subject_of redeem = txt "[VNST] Successfully Redeemed - "

module _ {W : Type 0} (o : Outside W) where
  unfoldable pub store_balance : Text → Amount → Option Wallet → Io W (Unit {0})
  store_balance address balance (some wallet) = do
    o.wallets.save (record wallet { balance = balance })
    pure tt
  store_balance address balance none = do
    create o (record {
      wallet_address = some address;
      email = none;
      enabled_noti = none;
      nonce = none;
      network = bnb;
      balance = some balance;
    })
    pure tt

  unfoldable pub update_balance_of : Text → Io W (Unit {0})
  update_balance_of address =
      if text_eq address zero_address
      then pure tt
      else try_catch
          (do
            balance ← get_balance_of o address
            wallet ← find_by_wallet_address o address
            store_balance address balance wallet)
          (λ e. pure tt)

  -- The job "updateBalance". A job without an address throws before the `try`.
  unfoldable pub update_balance_job : Option Text → Io W (Unit {0})
  update_balance_job none = throw (error (txt "TypeError"))
  update_balance_job (some job) = update_balance_of (trim (to_lower_case job))

  module _ (number : Option FieldValue → ℕ) where
    unfoldable pub new_notification : EventLog → NotificationType → Wallet → CreateNotification
    new_notification log kind wallet = record {
      wallet = wallet.id;
      metadata = record {
        amount_in = from_wei (number (field (txt "1") log.return_values));
        amount_out = from_wei (number (field (txt "2") log.return_values));
        transaction_hash = log.transaction_hash;
        timestamp = number (field (txt "created_at") log.return_values);
      };
      type = kind;
      read = false;
    }

    unfoldable pub new_message : EventLog → NotificationType → Wallet → TransactionMessage
    new_message log kind wallet = record {
      recipient = wallet.email;
      subject =
          subject_of kind
          ++ o.library.format_date (number (field (txt "created_at") log.return_values));
      wallet_address = wallet.wallet_address;
      transaction_hash = log.transaction_hash;
      network = bnb;
    }

    unfoldable pub notify_wallet : EventLog → NotificationType → Option Wallet → Io W (Unit {0})
    notify_wallet log kind none = pure tt
    notify_wallet log kind (some wallet) = do
      o.notifications.create (new_notification log kind wallet)
      when wallet.enabled_noti (send_email_transaction o (new_message log kind wallet) kind)

    -- From the test of the address on.
    unfoldable pub notify_address : EventLog → NotificationType → Text → Io W (Unit {0})
    notify_address log kind address =
        if truthy address && o.library.is_ethereum_address address
        then try_catch (find_by_wallet_address o address >>= notify_wallet log kind) (λ e. pure tt)
        else pure tt

    -- `(returnValues[0] as string).toLowerCase()` throws at a value that is no text.
    unfoldable pub notify_event : EventLog → NotificationType → Io W (Unit {0})
    notify_event log kind = do
      address ← or_throw (field_text (field (txt "0") log.return_values))
      notify_address log kind (to_lower_case address)

    abbrev pub notify_if : EventLog → Option Text → Option NotificationType → Io W (Unit {0})
    notify_if log none kind = pure tt
    notify_if log (some id) none = pure tt
    notify_if log (some id) (some kind) = notify_event log kind

    -- The job "insertEventLog".
    unfoldable pub insert_event_log_job : EventLog → Io W (Unit {0})
    insert_event_log_job log = do
      upserted ← o.event_logs.update_one (log_key log) log true
      notify_if log upserted (event_kind log.event)

    -- The processor of the queue "eventLog": a job by its name.
    unfoldable pub run_job : Job → Io W (Unit {0})
    run_job (update_balance address) = update_balance_job address
    run_job (insert_event_log log) = insert_event_log_job log
