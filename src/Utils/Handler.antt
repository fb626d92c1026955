-- ===== src/Utils/Handler.antt =====
-- src/helper/handler.ts: dates, the random nonce. What `Date` makes of a time depends on the host's
-- time zone: its fields are a parameter.
use vnst_be.Base.{ℕ, ◌+◌, ◌*◌, ◌/◌, ◌^◌, ◌++◌, Text, txt, decimal, ltb, if◌then◌else◌}
use vnst_be.Utils.Format.{slice_last}

-- `getDate()`, `getMonth()` (from 0 on) and `getFullYear()`.
pub record CalendarDate : Type 0 where
  pub date : ℕ
  pub month : ℕ
  pub year : ℕ

-- `_date.getDate() > 10 ? _date.getDate() : "0" + _date.getDate()`
unfoldable pub date_text : ℕ → Text
date_text date = if ltb 10 date then decimal date else txt "0" ++ decimal date

-- `_date.getMonth() > 10 ? _date.getMonth() + 1 : "0" + (_date.getMonth() + 1)`
unfoldable pub month_text : ℕ → Text
month_text month = if ltb 10 month then decimal (month + 1) else txt "0" ++ decimal (month + 1)

unfoldable pub get_date_month_year : CalendarDate → Text
get_date_month_year d = slice_last 2 (decimal d.year) ++ (date_text d.date ++ month_text d.month)

-- `calendar` is `new Date(timestamp)`.
unfoldable pub convert_time_stamp_to_date : (ℕ → CalendarDate) → ℕ → Text
convert_time_stamp_to_date calendar timestamp =
    decimal (calendar timestamp).date
    ++ txt " - "
    ++ decimal ((calendar timestamp).month + 1)
    ++ txt " - "
    ++ decimal (calendar timestamp).year

-- `Math.floor(Math.random() * 899999 + 100000)`, where the random number is `k / 2 ** 53`; the
-- product is exact here.
unfoldable pub random_nonce : ℕ → ℕ
random_nonce k = k * 899999 / 2 ^ 53 + 100000
