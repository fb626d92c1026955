-- ===== src/EventLogs/ConsumerLaws.antt =====
-- On the two jobs of src/modules/event-logs/event-logs.consumer.ts.
use vnst_be.Base.{
  ℕ, ◌≡◌, ◌⊎◌, inl, inr, refl, true, Option, none, some, Text, txt, text_eq, text_eq_iff, truthy,
  to_lower_case, trim, ◌&&◌, Result, ok, thrown, bind, ◌>>=◌, recover, pure, Option-cases,
  Bool-cases, arith,
}
use vnst_be.Schema.Notification.{NotificationType}
use vnst_be.Schema.EventLog.{EventLog, FieldValue, log_key}
use vnst_be.External.Infra.{Outside}
use vnst_be.Contract.{get_balance_of}
use vnst_be.Wallets.Service.{find_by_wallet_address}
use vnst_be.EventLogs.Parse.{field, field_text}
use vnst_be.EventLogs.Consumer.{
  zero_address, event_kind, store_balance, notify_wallet, update_balance_of, update_balance_job,
  notify_address, notify_event, insert_event_log_job,
}

module _ {W : Type 0} where
  recover-total : (r : Result W (Unit {0})) → (v : W) × (recover r (λ e. pure tt) ≡ ok tt v)
  recover-total (ok _ v) = (v, refl)
  recover-total (thrown e v) = (v, refl)

module _ {W : Type 0} (o : Outside W) where
  -- The job "updateBalance" for an address never throws, whatever the node or the database do, and
  -- for the zero address, in any case and with spaces round it, it changes nothing.
  pub update_balance_job_contained :
      (job : Text) (w : W)
      → (v : W) × (update_balance_job o (some job) w ≡ ok tt v)
        × (trim (to_lower_case job) ≡ zero_address → v ≡ w)
  unfolding update_balance_job update_balance_of
  update_balance_job_contained job w =
      elim (Bool-cases (text_eq (trim (to_lower_case job)) zero_address)) [
        | inl zero_given ↦ (w, rw zero_given refl, λ same. refl)
        | inr other ↦
            let (v, done) = recover-total (
              bind (get_balance_of o (trim (to_lower_case job)) w) λ balance.
                find_by_wallet_address o (trim (to_lower_case job))
                >>= store_balance o (trim (to_lower_case job)) balance) in
            (
              v,
              rw other done,
              λ same. absurd (
                  ground (arith, other, text_eq_iff (trim (to_lower_case job)) zero_address, same)),
            )
      ]

  module _ (number : Option FieldValue → ℕ) where
    notify_address-total :
        (log : EventLog) (kind : NotificationType) (address : Text) (w : W)
        → (v : W) × (notify_address o number log kind address w ≡ ok tt v)
    unfolding notify_address
    notify_address-total log kind address w =
        elim (Bool-cases (truthy address && o.library.is_ethereum_address address)) [
          | inl good ↦
              let (v, done) =
                recover-total
                  (bind (find_by_wallet_address o address w) (notify_wallet o number log kind)) in
              (v, rw good done)
          | inr bad ↦ (w, rw bad refl)
        ]

    notify_event-total :
        (log : EventLog) (kind : NotificationType) (address : Text) (w : W)
        → field_text (field (txt "0") log.return_values) ≡ some address
        → (v : W) × (notify_event o number log kind w ≡ ok tt v)
    unfolding notify_event
    notify_event-total log kind address w e =
        let (v, done) = notify_address-total log kind (to_lower_case address) w in (v, rw e done)

    -- Once an event whose first value is a text is stored, the job "insertEventLog" ends without an
    -- exception, whatever the notification and the mail do. It does more than store the event only
    -- if the event was new and is a mint or a redemption.
    pub insert_event_log_job_contained :
        (log : EventLog) (address : Text) (upserted : Option Text) (w u : W)
        → o.event_logs.update_one (log_key log) log true w ≡ ok upserted u
        → field_text (field (txt "0") log.return_values) ≡ some address
        → (v : W) × (insert_event_log_job o number log w ≡ ok tt v)
          × ((v ≡ u)
              ⊎ ((id : Text) × (kind : NotificationType) × (upserted ≡ some id)
                  × (event_kind log.event ≡ some kind)))
    unfolding insert_event_log_job
    insert_event_log_job_contained log address none w u e h = (u, rw e refl, inl refl)
    insert_event_log_job_contained log address (some id) w u e h =
        elim (Option-cases (event_kind log.event)) [
          | inl no_kind ↦ (u, rw (e, no_kind) refl, inl refl)
          | inr (kind, has_kind) ↦
              let (v, done) = notify_event-total log kind address u h in
              (v, rw (e, has_kind) done, inr (id, kind, refl, has_kind))
        ]
