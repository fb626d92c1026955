-- ===== src/Merchants/TotalLaws.antt =====
-- On `getTotalContributions` and `getTotalLiquidity`, src/modules/merchant.
use vnst_be.Base.{
  ℕ, ◌≡◌, refl, ap, ◌∙◌, ◌⊎◌, inl, inr, Bool, true, false, Option, none, some, List, [], ◌∷◌, any,
  filter, All, Text, txt, Io, ok, if◌then◌else◌, Bool-cases,
}
use vnst_be.Schema.Chains.{Token, vnst, usdt}
use vnst_be.Schema.Amount.{Amount}
use vnst_be.Schema.Signed.{SignedAmount, sub_ℕ}
use vnst_be.Schema.Merchant.{
  ContributionHistory, LiquiditySupport, LiquiditySupportType, support_in, support_out,
}
use vnst_be.External.Aggregate.{
  Expression, property, string, whole, equal, cond, subtract, Stage, group_sum, project,
}
use vnst_be.App.UnitLaws.{sum_of}
use vnst_be.Merchants.Totals.{
  TokenTotal, token_eq, assign, reduce_totals, contribution_totals, get_total_contributions,
  liquidity_totals, get_total_liquidity,
}

-- `totals[token]`.
abbrev pub lookup : {A : Type 0} → Token → List (Token × A) → Option A
lookup token [] = none
lookup token ((t, x) ∷ totals) = if token_eq t token then some x else lookup token totals

token_eq_sound : (t u : Token) → token_eq t u ≡ true → t ≡ u
token_eq_sound vnst vnst h = refl
token_eq_sound usdt usdt h = refl
token_eq_sound vnst usdt h = cc
token_eq_sound usdt vnst h = cc

token_eq_refl : (t : Token) → token_eq t t ≡ true
token_eq_refl vnst = refl
token_eq_refl usdt = refl

lookup-assign :
    {A : Type 0} (t u : Token) (x : A) (totals : List (Token × A))
    → lookup t (assign u x totals) ≡ (if token_eq u t then some x else lookup t totals)
unfolding assign
lookup-assign vnst vnst x [] = refl
lookup-assign vnst usdt x [] = refl
lookup-assign usdt vnst x [] = refl
lookup-assign usdt usdt x [] = refl
lookup-assign vnst vnst x ((vnst, y) ∷ totals) = refl
lookup-assign vnst usdt x ((vnst, y) ∷ totals) = refl
lookup-assign usdt vnst x ((vnst, y) ∷ totals) = refl
lookup-assign usdt usdt x ((vnst, y) ∷ totals) = lookup-assign usdt usdt x totals
lookup-assign vnst vnst x ((usdt, y) ∷ totals) = lookup-assign vnst vnst x totals
lookup-assign vnst usdt x ((usdt, y) ∷ totals) = refl
lookup-assign usdt vnst x ((usdt, y) ∷ totals) = refl
lookup-assign usdt usdt x ((usdt, y) ∷ totals) = refl

module _ {A : Type 0} (value : Token → A) where
  -- The groups say of their tokens what `value` does.
  abbrev pub AreTotals : List (TokenTotal A) → Type 0
  AreTotals items = All (λ i. i.total ≡ value i.id) items

  lookup-assigned :
      (t : Token) (item : TokenTotal A) (totals : List (Token × A))
      → item.total ≡ value item.id
      → token_eq item.id t ≡ true
      → lookup t (assign item.id item.total totals) ≡ some (value t)
  lookup-assigned t item totals here same =
      lookup-assign t item.id item.total totals
      ∙ rw same (ap some (here ∙ ap value (token_eq_sound item.id t same)))

  lookup-others :
      (t : Token) (item : TokenTotal A) (totals : List (Token × A))
      → token_eq item.id t ≡ false
      → lookup t (assign item.id item.total totals) ≡ lookup t totals
  lookup-others t item totals other = lookup-assign t item.id item.total totals ∙ rw other refl

  reduce_totals-keeps :
      (t : Token) (items : List (TokenTotal A)) (totals : List (Token × A))
      → AreTotals items
      → lookup t totals ≡ some (value t)
      → lookup t (reduce_totals items totals) ≡ some (value t)
  unfolding reduce_totals
  reduce_totals-keeps t [] totals h e = e
  reduce_totals-keeps t (item ∷ items) totals (here, later) e =
      reduce_totals-keeps t items (assign item.id item.total totals) later
        (elim (Bool-cases (token_eq item.id t)) [
          | inl same ↦ lookup-assigned t item totals here same
          | inr other ↦ lookup-others t item totals other ∙ e
        ])

  lookup-reduce_totals :
      (t : Token) (items : List (TokenTotal A)) (totals : List (Token × A))
      → AreTotals items
      → lookup t totals ≡ none
      → (lookup t (reduce_totals items totals) ≡ some (value t))
        ⊎ ((lookup t (reduce_totals items totals) ≡ none)
            × (any (λ i. token_eq i.id t) items ≡ false))
  unfolding reduce_totals
  lookup-reduce_totals t [] totals h e = inr (e, refl)
  lookup-reduce_totals t (item ∷ items) totals (here, later) e =
      elim (Bool-cases (token_eq item.id t)) [
        | inl same ↦ inl (
            reduce_totals-keeps t items (assign item.id item.total totals) later
              (lookup-assigned t item totals here same))
        | inr other ↦ rw other (
            lookup-reduce_totals t items (assign item.id item.total totals) later
              (lookup-others t item totals other ∙ e))
      ]

abbrev pub contributions_of : Token → List ContributionHistory → List ContributionHistory
contributions_of t rows = filter (λ r. token_eq r.token t) rows

abbrev pub supports_of : Token → List LiquiditySupport → List LiquiditySupport
supports_of t rows = filter (λ r. token_eq r.token t) rows

abbrev pub is_in : LiquiditySupportType → Bool
is_in support_in = true
is_in support_out = false

abbrev pub is_out : LiquiditySupportType → Bool
is_out support_in = false
is_out support_out = true

-- The sums in base units of d decimals.
abbrev pub contributed : ℕ → List ContributionHistory → Token → Amount
contributed d rows t = record {
  units = sum_of (λ r. r.amount.units) (contributions_of t rows);
  decimals = d;
}

-- What was taken out less what was put in.
abbrev pub net_liquidity : ℕ → List LiquiditySupport → Token → SignedAmount
net_liquidity d rows t = record {
  units =
      sub_ℕ (sum_of (λ r. r.amount.units) (filter (λ r. is_out r.type) (supports_of t rows)))
        (sum_of (λ r. r.amount.units) (filter (λ r. is_in r.type) (supports_of t rows)));
  decimals = d;
}

-- Sums of the amounts by token.
abbrev pub sums_by_token : List Stage
sums_by_token =
    group_sum (property (txt "token")) ((txt "total", property (txt "amount")) ∷ []) ∷ []

-- The amount of the supports of a type, and 0 for the others.
abbrev pub amount_if : Text → Expression
amount_if type =
    cond (equal (property (txt "type")) (string type)) (property (txt "amount")) (whole 0)

-- Sums of the amounts in and of those out by token, and the difference of these.
abbrev pub nets_by_token : List Stage
nets_by_token =
    group_sum (property (txt "token"))
      ((txt "totalIn", amount_if (txt "IN")) ∷ (txt "totalOut", amount_if (txt "OUT")) ∷ [])
    ∷ project (
        (txt "_id", whole 1)
        ∷ (txt "netTotal", subtract (property (txt "totalOut")) (property (txt "totalIn")))
        ∷ [])
    ∷ []

-- What the aggregations answer for rows whose amounts have d decimals, in any order: each group has
-- the total of its token, and a token without a group has no rows.
pub record IsContributed (d : ℕ) (groups : List (TokenTotal Amount))
    (rows : List ContributionHistory) : Type 0 where
  pub scaled : All (λ r. r.amount.decimals ≡ d) rows
  pub sums : AreTotals (contributed d rows) groups
  pub covers :
      (t : Token) → any (λ i. token_eq i.id t) groups ≡ false → contributions_of t rows ≡ []

pub record IsSupported (d : ℕ) (groups : List (TokenTotal SignedAmount))
    (rows : List LiquiditySupport) : Type 0 where
  pub scaled : All (λ r. r.amount.decimals ≡ d) rows
  pub sums : AreTotals (net_liquidity d rows) groups
  pub covers : (t : Token) → any (λ i. token_eq i.id t) groups ≡ false → supports_of t rows ≡ []

-- If the database answers the aggregation that groups by `token` and sums `amount` with the sums of
-- the stored contributions by token, without rounding and in any order, then the object has for each
-- token the sum of its contributions, or nothing where there are none.
pub lookup-get_total_contributions :
    {W : Type 0} (aggregate : List Stage → Io W (List (TokenTotal Amount))) (d : ℕ)
    (rows : List ContributionHistory) (groups : List (TokenTotal Amount)) (w u : W)
    → aggregate sums_by_token w ≡ ok groups u
    → IsContributed d groups rows
    → (totals : List (Token × Amount)) × (get_total_contributions aggregate w ≡ ok totals u)
      × ((t : Token)
          → (lookup t totals ≡ some (contributed d rows t))
            ⊎ ((lookup t totals ≡ none) × (contributions_of t rows ≡ [])))
unfolding get_total_contributions contribution_totals
lookup-get_total_contributions aggregate d rows groups w u e summed = (
  reduce_totals groups [],
  rw e refl,
  λ t. elim (lookup-reduce_totals (contributed d rows) t groups [] summed.sums refl) [
    | inl there ↦ inl there
    | inr (missing, nothing) ↦ inr (missing, summed.covers t nothing)
  ],
)

-- If the database answers the aggregation that groups by `token`, sums `amount` where `type` is IN and
-- where it is OUT, and subtracts the first sum from the second, with these differences of the stored
-- supports, without rounding and in any order, then the program asks for that aggregation, and its
-- object has for each token what was taken out less what was put in, or nothing where there are no
-- supports.
pub lookup-get_total_liquidity :
    {W : Type 0} (aggregate : List Stage → Io W (List (TokenTotal SignedAmount))) (d : ℕ)
    (rows : List LiquiditySupport) (groups : List (TokenTotal SignedAmount)) (w u : W)
    → aggregate nets_by_token w ≡ ok groups u
    → IsSupported d groups rows
    → (totals : List (Token × SignedAmount)) × (get_total_liquidity aggregate w ≡ ok totals u)
      × ((t : Token)
          → (lookup t totals ≡ some (net_liquidity d rows t))
            ⊎ ((lookup t totals ≡ none) × (supports_of t rows ≡ [])))
unfolding get_total_liquidity liquidity_totals
lookup-get_total_liquidity aggregate d rows groups w u e summed = (
  reduce_totals groups [],
  rw e refl,
  λ t. elim (lookup-reduce_totals (net_liquidity d rows) t groups [] summed.sums refl) [
    | inl there ↦ inl there
    | inr (missing, nothing) ↦ inr (missing, summed.covers t nothing)
  ],
)
