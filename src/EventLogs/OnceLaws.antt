-- ===== src/EventLogs/OnceLaws.antt =====
-- On a second delivery of the job "insertEventLog", src/modules/event-logs/event-logs.consumer.ts.
use vnst_be.Base.{
  Leaves, bind-Leaves, catch-Leaves, when-Leaves, end_of, ℕ, ◌≡◌, refl, sym, ap, ◌∙◌, inl, inr,
  Bool, true, ◌&&◌, Option, none, some, Text, txt, truthy, to_lower_case, ok, when, ◌>>=◌,
  Option-cases, Bool-cases,
}
use vnst_be.Schema.Wallet.{Wallet}
use vnst_be.Schema.Notification.{NotificationType}
use vnst_be.Schema.EventLog.{EventLog, FieldValue, LogKey, log_key}
use vnst_be.External.Models.{WalletFilter, CreateNotification}
use vnst_be.External.Infra.{Outside, Mail}
use vnst_be.Email.Service.{transaction_mail, send_email_transaction}
use vnst_be.Wallets.Service.{find_by_wallet_address, by_address}
use vnst_be.EventLogs.Parse.{field, field_text}
use vnst_be.EventLogs.Consumer.{
  event_kind, new_notification, new_message, notify_wallet, notify_address, notify_event, notify_if,
  insert_event_log_job,
}
use vnst_be.EventLogs.ConsumerLaws.{insert_event_log_job_contained}

-- The collection of events: an update with `upsert` stores the event under its key, and reports an
-- identifier only if the key was not there. Looking up wallets, storing notifications and sending
-- mails leave the collection alone.
pub record IsEventStore {W : Type 0} (o : Outside W) (known : LogKey → W → Bool) : Type 0 where
  pub stores :
      (log : EventLog) (upserted : Option Text) (w v : W)
      → o.event_logs.update_one (log_key log) log true w ≡ ok upserted v
      → known (log_key log) v ≡ true
  pub repeats :
      (log : EventLog) (w : W)
      → known (log_key log) w ≡ true
      → (v : W) × (o.event_logs.update_one (log_key log) log true w ≡ ok none v)
  pub finds :
      (key : LogKey) (filter : WalletFilter) (w : W)
      → known key (end_of (o.wallets.find_one filter w)) ≡ known key w
  pub creates :
      (key : LogKey) (notification : CreateNotification) (w : W)
      → known key (end_of (o.notifications.create notification w)) ≡ known key w
  pub sends :
      (key : LogKey) (mail : Mail) (w : W) → known key (end_of (o.mailer.send mail w)) ≡ known key w

module _ {W : Type 0} (o : Outside W) (number : Option FieldValue → ℕ) {known : LogKey → W → Bool}
    (store : IsEventStore o known) (key : LogKey) where
  notify_wallet-Leaves :
      (log : EventLog) (kind : NotificationType) (wallet : Option Wallet)
      → Leaves (known key) (notify_wallet o number log kind wallet)
  unfolding notify_wallet send_email_transaction
  notify_wallet-Leaves log kind none = λ w. refl
  notify_wallet-Leaves log kind (some wallet) =
      bind-Leaves (known key) (o.notifications.create (new_notification o number log kind wallet))
        (λ _.
          when wallet.enabled_noti
            (send_email_transaction o (new_message o number log kind wallet) kind))
        (store.creates key (new_notification o number log kind wallet))
        (λ _.
          when-Leaves (known key) wallet.enabled_noti
            (send_email_transaction o (new_message o number log kind wallet) kind)
            (catch-Leaves (known key)
              (o.mailer.send (transaction_mail o (new_message o number log kind wallet) kind)) tt
              (store.sends key (transaction_mail o (new_message o number log kind wallet) kind))))

  notify_address-Leaves :
      (log : EventLog) (kind : NotificationType) (address : Text)
      → Leaves (known key) (notify_address o number log kind address)
  unfolding notify_address find_by_wallet_address
  notify_address-Leaves log kind address w =
      elim (Bool-cases (truthy address && o.library.is_ethereum_address address)) [
        | inr bad ↦ rw bad refl
        | inl good ↦ rw good (
            catch-Leaves (known key)
              (find_by_wallet_address o address >>= notify_wallet o number log kind) tt
              (bind-Leaves (known key) (find_by_wallet_address o address)
                (notify_wallet o number log kind) (store.finds key (by_address address))
                (notify_wallet-Leaves log kind))
              w)
      ]

  notify_event-Leaves :
      (log : EventLog) (kind : NotificationType)
      → Leaves (known key) (notify_event o number log kind)
  unfolding notify_event
  notify_event-Leaves log kind w =
      elim (Option-cases (field_text (field (txt "0") log.return_values))) [
        | inl missing ↦ rw missing refl
        | inr (address, e) ↦ rw e (notify_address-Leaves log kind (to_lower_case address) w)
      ]

  pub notify_if-Leaves :
      (log : EventLog) (upserted : Option Text) (kind : Option NotificationType)
      → Leaves (known key) (notify_if o number log upserted kind)
  notify_if-Leaves log none kind = λ w. refl
  notify_if-Leaves log (some id) none = λ w. refl
  notify_if-Leaves log (some id) (some kind) = notify_event-Leaves log kind

module _ {W : Type 0} (o : Outside W) (number : Option FieldValue → ℕ) {known : LogKey → W → Bool}
    (store : IsEventStore o known) where
  -- If the collection keeps what is stored in it, then an event that is scanned again, such as one of
  -- the block in which two ranges meet, is notified of once: where its job has run, a second delivery
  -- succeeds and does nothing but store the event again. Its first value is a text.
  pub insert_event_log_job_once :
      (log : EventLog) (address : Text) (upserted : Option Text) (w u : W)
      → o.event_logs.update_one (log_key log) log true w ≡ ok upserted u
      → field_text (field (txt "0") log.return_values) ≡ some address
      → (v : W) × (v' : W) × (insert_event_log_job o number log w ≡ ok tt v)
        × (o.event_logs.update_one (log_key log) log true v ≡ ok none v')
        × (insert_event_log_job o number log v ≡ ok tt v')
  unfolding insert_event_log_job
  insert_event_log_job_once log address upserted w u e h =
      let (v, done, _) = insert_event_log_job_contained o number log address upserted w u e h in
      let first : notify_if o number log upserted (event_kind log.event) u ≡ ok tt v =
        rw e at done in
      let same : known (log_key log) v ≡ true =
        ap (λ r. known (log_key log) (end_of r)) (sym first)
        ∙ notify_if-Leaves o number store (log_key log) log upserted (event_kind log.event) u
        ∙ store.stores log upserted w u e in
      let (v', again) = store.repeats log v same in (v, v', done, again, rw again refl)
