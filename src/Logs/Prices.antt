-- ===== src/Logs/Prices.antt =====
-- src/modules/token-price: the two jobs of token-price.schedule.ts, and `getLatestPrice` of
-- token-price.service.ts. `startOf("minute")` is cut off from milliseconds.
use vnst_be.Base.{ℕ, ◌*◌, ◌/◌, Option, Text, Io, pure, ◌>>=◌, try_catch}
use vnst_be.Schema.Chains.{Network, bnb, ton, Token, usdt}
use vnst_be.Schema.Amount.{Amount}
use vnst_be.External.Infra.{Outside}
use vnst_be.Contract.{get_market_price}

-- src/schema/token-price.schema.ts; the time is in milliseconds.
pub record TokenPrice : Type 0 where
  pub token : Token
  pub price : Amount
  pub time : ℕ
  pub network : Network

pub record TokenPriceModel (W : Type 0) : Type 0 where
  pub create : TokenPrice → Io W (Unit {0})
  -- `findOne({ network }).sort({ time: -1 })`
  pub find_latest : Text → Io W (Option TokenPrice)

-- `dayjs().startOf("minute")`
unfoldable pub start_of_minute : ℕ → ℕ
start_of_minute ms = ms / 60000 * 60000

module _ {W : Type 0} (o : Outside W) (model : TokenPriceModel W) where
  -- The body of a job, from the source of the price.
  unfoldable pub record_price : Network → Io W Amount → Io W (Unit {0})
  record_price network market_price = do
    price ← market_price
    now ← o.timer.now
    model.create
        (record { token = usdt; price = price; time = start_of_minute now; network = network })

  unfoldable pub cron_get_price : Io W (Unit {0})
  cron_get_price = try_catch (record_price bnb (get_market_price o)) (λ e. pure tt)

  -- `ton_market_price` is `getMarketPrice` of the TON service.
  unfoldable pub cron_get_price_ton : Io W Amount → Io W (Unit {0})
  cron_get_price_ton ton_market_price = try_catch (record_price ton ton_market_price) (λ e. pure tt)

  unfoldable pub get_latest_price : Text → Io W (Option TokenPrice)
  get_latest_price network = model.find_latest network
