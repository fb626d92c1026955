-- ===== src/Notifications/OwnerLaws.antt =====
-- On PUT /notifications/:id, src/modules/notification/notification.controller.ts.
use vnst_be.Base.{
  ◌≡◌, ◌≢◌, refl, inl, inr, Bool, true, none, some, Text, text_eq, text_eq_iff, Exception, ok,
  thrown, Result-cases, Bool-cases, arith,
}
use vnst_be.Schema.Notification.{Notification}
use vnst_be.External.Infra.{Outside}
use vnst_be.Wallets.Controller.{TokenPayload}
use vnst_be.Notifications.Service.{
  notification_missing, authorization_failed, update_one, update_found, put_notification,
}

module _ {W : Type 0} (o : Outside W) (user : TokenPayload) (id : Text) (read : Bool) where
  -- The ways in which PUT /notifications/:id can go, from the state `w`.
  pub data Update (w : W) : Type 0 where
    unreachable :
        (e : Exception) (v : W)
        → o.notifications.find_by_id id w ≡ thrown e v
        → put_notification o user id read w ≡ thrown e v
        → Update w
    missing :
        (v : W)
        → o.notifications.find_by_id id w ≡ ok none v
        → put_notification o user id read w ≡ thrown notification_missing v
        → Update w
    refused :
        (n : Notification) (v : W)
        → o.notifications.find_by_id id w ≡ ok (some n) v
        → n.wallet ≢ user.id
        → put_notification o user id read w ≡ thrown authorization_failed v
        → Update w
    updated :
        (n : Notification) (v : W)
        → o.notifications.find_by_id id w ≡ ok (some n) v
        → n.wallet ≡ user.id
        → put_notification o user id read w ≡ o.notifications.find_by_id_and_update id read true v
        → Update w

  -- A notification is updated only if it is one of the user's wallet. One of another wallet is
  -- refused, and one that is missing or cannot be read is reported, each without an update.
  pub put_notification-Update : (w : W) → Update w
  unfolding put_notification update_found update_one
  put_notification-Update w = elim (Result-cases (o.notifications.find_by_id id w)) [
    | inr (e, v, p) ↦ unreachable e v p (rw p refl)
    | inl (none, v, p) ↦ missing v p (rw p refl)
    | inl (some n, v, p) ↦ elim (Bool-cases (text_eq n.wallet user.id)) [
      | inl same ↦ updated n v p ((text_eq_iff n.wallet user.id).0 same) (rw (p, same) refl)
      | inr other ↦
          refused n v p (λ h. ground (arith, other, text_eq_iff n.wallet user.id, h))
            (rw (p, other) refl)
    ]
  ]
