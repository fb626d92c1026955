-- ===== src/Logs/Chart.antt =====
-- src/modules/token-price/token-price.service.ts: `getTokenPriceChart`. dayjs's calendar is a
-- parameter; times are milliseconds.
use vnst_be.Base.{ℕ, List, [], ◌∷◌, ◌++◌, map, Text, txt, Io, pure, ◌>>=◌}
use vnst_be.Schema.Chains.{Network, Token}
use vnst_be.Schema.Amount.{Amount}
use vnst_be.Utils.Retry.{Timer}

-- src/modules/token-price/token-price.constants.ts
pub data TimeRange : Type 0 where
  by_day by_week by_month by_year : TimeRange

-- src/modules/token-price/dto/token-price.dto.ts
pub record TokenPriceChart : Type 0 where
  pub range : TimeRange
  pub token : Token
  pub network : Network

pub data TimeUnit : Type 0 where
  hour day month year : TimeUnit

-- `subtract count unit t` and `start_of unit t`.
pub record Calendar : Type 0 where
  pub subtract : ℕ → TimeUnit → ℕ → ℕ
  pub start_of : TimeUnit → ℕ → ℕ

-- A property of `$dateFromParts`.
pub data DatePart : Type 0 where
  -- `{ $year: "$time" }`, by the operator's name
  part_of_time : Text → DatePart
  zone : Text → DatePart

pub data PriceStage : Type 0 where
  -- `$match: { time: { $gte: start }, token, network }`
  match_since : ℕ → Token → Network → PriceStage
  -- `$group` by `$dateFromParts`, with the average of the price
  average_by : List (Text × DatePart) → PriceStage
  -- `$sort: { _id: 1 }`
  sort_by_id : PriceStage
  -- `$project`: the milliseconds between `_id` and a date, and the price
  project_timestamp : Text → PriceStage

unfoldable pub start_date : Calendar → TimeRange → ℕ → ℕ
start_date c by_day now = c.start_of hour (c.subtract 1 day now)
start_date c by_week now = c.start_of day (c.subtract 7 day now)
start_date c by_month now = c.start_of day (c.subtract 1 month now)
start_date c by_year now = c.start_of day (c.subtract 1 year now)

abbrev pub timezone : Text
timezone = txt "Asia/Ho_Chi_Minh"

abbrev pub year_and_month : List (Text × DatePart)
year_and_month =
    (txt "year", part_of_time (txt "$year")) ∷ (txt "month", part_of_time (txt "$month")) ∷ []

abbrev pub day_parts : List (Text × DatePart)
day_parts = year_and_month ++ ((txt "day", part_of_time (txt "$dayOfMonth")) ∷ [])

unfoldable pub group_time : TimeRange → List (Text × DatePart)
group_time by_day = day_parts ++ ((txt "hour", part_of_time (txt "$hour")) ∷ [])
group_time by_week = day_parts ++ ((txt "timezone", zone timezone) ∷ [])
group_time by_month = day_parts ++ ((txt "timezone", zone timezone) ∷ [])
group_time by_year = year_and_month ++ ((txt "timezone", zone timezone) ∷ [])

unfoldable pub chart_aggregation : Calendar → TokenPriceChart → ℕ → List PriceStage
chart_aggregation c query now =
    match_since (start_date c query.range now) query.token query.network
    ∷ average_by (group_time query.range)
    ∷ sort_by_id
    ∷ project_timestamp (txt "1970-01-01")
    ∷ []

-- A document of the result.
pub record PriceGroup : Type 0 where
  pub id : ℕ
  pub timestamp : ℕ
  pub price : Amount

pub record PricePoint : Type 0 where
  pub timestamp : ℕ
  pub price : Amount

-- `({ _id, ...rest }) => rest`
abbrev pub without_id : PriceGroup → PricePoint
without_id group = record { timestamp = group.timestamp; price = group.price }

module _ {W : Type 0} (timer : Timer W) (c : Calendar)
    (aggregate : List PriceStage → Io W (List PriceGroup)) where
  unfoldable pub get_token_price_chart : TokenPriceChart → Io W (List PricePoint)
  get_token_price_chart query = do
    now ← timer.now
    results ← aggregate (chart_aggregation c query now)
    pure (map without_id results)
