-- ===== src/Merchants/Service.antt =====
-- src/modules/merchant/merchant.service.ts and merchant.controller.ts. The controller forwards a
-- query to another service and hands on what it answers.
use vnst_be.Base.{Option, some, List, [], ◌∷◌, ◌++◌, Text, txt, Io}
use vnst_be.Schema.Merchant.{Merchant}

pub record MerchantModel (W : Type 0) : Type 0 where
  -- `findOne({ code })`
  pub find_by_code : Text → Io W (Option Merchant)
  pub find_by_id : Text → Io W (Option Merchant)

module _ {W : Type 0} (model : MerchantModel W) where
  unfoldable pub find_by_code : Text → Io W (Option Merchant)
  find_by_code code = model.find_by_code code

  unfoldable pub find_by_id : Text → Io W (Option Merchant)
  find_by_id id = model.find_by_id id

-- src/modules/merchant/dto/merchant-analytic.dto.ts
pub record MerchantAnalytic : Type 0 where
  pub range : Text
  pub from : Option Text
  pub to : Option Text
  pub margin_currency : Text

-- src/modules/merchant/dto/merchant-chart.dto.ts
pub record MerchantChart : Type 0 where
  pub range : Text
  pub from : Option Text
  pub to : Option Text
  pub margin_currency : Text

-- The parameters of a request; a property that is undefined is none.
abbrev pub analytic_params : MerchantAnalytic → List (Text × Option Text)
analytic_params query =
    (txt "range", some query.range)
    ∷ (txt "from", query.from)
    ∷ (txt "to", query.to)
    ∷ (txt "marginCurrency", some query.margin_currency)
    ∷ []

abbrev pub chart_params : MerchantChart → List (Text × Option Text)
chart_params query =
    (txt "range", some query.range)
    ∷ (txt "from", query.from)
    ∷ (txt "to", query.to)
    ∷ (txt "marginCurrency", some query.margin_currency)
    ∷ []

-- `get url params` is the streamed request of axios, whose answer `Stream` is piped into the
-- response; `endpoint` is END_POINT_NAMI.
module _ {W Stream : Type 0} (get : Text → List (Text × Option Text) → Io W Stream)
    (endpoint : Text) where
  -- GET /analytic
  unfoldable pub merchant_analytic : MerchantAnalytic → Io W Stream
  merchant_analytic query =
      get (endpoint ++ txt "/api/v3/nao-dashboard/statistic-v2") (analytic_params query)

  -- GET /chart
  unfoldable pub merchant_chart : MerchantChart → Io W Stream
  merchant_chart query =
      get (endpoint ++ txt "/api/v3/nao-dashboard/statistic/chart") (chart_params query)
