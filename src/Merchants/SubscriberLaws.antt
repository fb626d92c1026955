-- ===== src/Merchants/SubscriberLaws.antt =====
-- On src/modules/merchant-subscriber/merchant-subscriber.service.ts.
use vnst_be.Base.{
  ◌≡◌, refl, inl, inr, Option, none, some, option_truthy, ok, thrown, bind-eq-ok, Bool-cases, arith,
}
use vnst_be.Schema.Merchant.{MerchantSubscriber}
use vnst_be.External.Models.{NewSubscriber}
use vnst_be.External.Infra.{Outside}
use vnst_be.Merchants.Subscriber.{
  MerchantSubscriberDto, already_exists, email_filter, telegram_filter, create_new, save_by_email,
  save_by_telegram, save_merchant_subscriber,
}

-- A subscriber that has just been created is found again, by its mail address and by its Telegram
-- identifier.
abbrev pub Keeps : {W : Type 0} → Outside W → Type 0
Keeps {W} o =
    (n : NewSubscriber) (w : W) (r : MerchantSubscriber) (v : W)
    → o.subscribers.create n w ≡ ok r v
    → ((s : MerchantSubscriber) × (u : W) × (o.subscribers.find_one (email_filter n.email) v
          ≡ ok (some s) u))
      × ((s : MerchantSubscriber) × (u : W) × (o.subscribers.find_one
              (telegram_filter n.telegram_id) v
            ≡ ok (some s) u))

module _ {W : Type 0} (o : Outside W) where
  create_new-eq-ok :
      (n : NewSubscriber) (found : Option MerchantSubscriber) {w : W} {r : MerchantSubscriber}
      {v : W}
      → create_new o n found w ≡ ok r v
      → o.subscribers.create n w ≡ ok r v
  unfolding create_new
  create_new-eq-ok n none h = h
  create_new-eq-ok n (some s) h = absurd (ground (arith, h))

  -- If the database finds again what it has stored, then a subscription that has been saved cannot
  -- be saved a second time: the same request is answered with a conflict.
  pub save_merchant_subscriber_once :
      (dto : MerchantSubscriberDto) (w : W) (r : MerchantSubscriber) (v : W)
      → Keeps o
      → save_merchant_subscriber o dto w ≡ ok r v
      → (u : W) × (save_merchant_subscriber o dto v ≡ thrown already_exists u)
  unfolding save_merchant_subscriber save_by_email save_by_telegram create_new
  save_merchant_subscriber_once dto w r v keeps h = elim (Bool-cases (option_truthy dto.email)) [
    | inl mail ↦
        let n : NewSubscriber = record { name = dto.name; email = dto.email; telegram_id = none } in
        let run : save_by_email o dto w ≡ ok r v = ground (arith, mail, h) in
        let (found, w1, e, h1) =
          bind-eq-ok (o.subscribers.find_one (email_filter dto.email) w) _ run in
        let ((s, u, again), other) = keeps n w1 r v (create_new-eq-ok n found h1) in
        (u, rw (mail, again) refl)
    | inr none_given ↦
        let n : NewSubscriber = record {
          name = dto.name;
          email = none;
          telegram_id = dto.telegram_id;
        } in
        let run : save_by_telegram o dto w ≡ ok r v = ground (arith, none_given, h) in
        let (found, w1, e, h1) =
          bind-eq-ok (o.subscribers.find_one (telegram_filter dto.telegram_id) w) _ run in
        let (other, (s, u, again)) = keeps n w1 r v (create_new-eq-ok n found h1) in
        (u, rw (none_given, again) refl)
  ]
