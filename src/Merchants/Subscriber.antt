-- ===== src/Merchants/Subscriber.antt =====
-- src/modules/merchant-subscriber/merchant-subscriber.service.ts.
use vnst_be.Base.{
  Option, none, some, Text, txt, option_truthy, if◌then◌else◌, Exception, http_exception, Io, throw,
  ◌>>=◌,
}
use vnst_be.Schema.Merchant.{MerchantSubscriber}
use vnst_be.External.Models.{NewSubscriber, SubscriberFilter}
use vnst_be.External.Infra.{Outside}

-- src/modules/merchant-subscriber/dto/merchant-subscriber.dto.ts
pub record MerchantSubscriberDto : Type 0 where
  pub name : Text
  pub email : Option Text
  pub telegram_id : Option Text

abbrev pub already_exists : Exception
already_exists = http_exception 409 (txt "merchant_subscribe_already_exists")

abbrev pub email_filter : Option Text → SubscriberFilter
email_filter email = record { email = email; telegram_id = none }

abbrev pub telegram_filter : Option Text → SubscriberFilter
telegram_filter telegram_id = record { email = none; telegram_id = telegram_id }

module _ {W : Type 0} (o : Outside W) where
  unfoldable pub create_new : NewSubscriber → Option MerchantSubscriber → Io W MerchantSubscriber
  create_new subscriber (some found) = throw already_exists
  create_new subscriber none = o.subscribers.create subscriber

  unfoldable pub save_by_email : MerchantSubscriberDto → Io W MerchantSubscriber
  save_by_email dto = do
    found ← o.subscribers.find_one (email_filter dto.email)
    create_new (record { name = dto.name; email = dto.email; telegram_id = none }) found

  unfoldable pub save_by_telegram : MerchantSubscriberDto → Io W MerchantSubscriber
  save_by_telegram dto = do
    found ← o.subscribers.find_one (telegram_filter dto.telegram_id)
    create_new (record { name = dto.name; email = none; telegram_id = dto.telegram_id }) found

  unfoldable pub save_merchant_subscriber : MerchantSubscriberDto → Io W MerchantSubscriber
  save_merchant_subscriber dto =
      if option_truthy dto.email then save_by_email dto else save_by_telegram dto
