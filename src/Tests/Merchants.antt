-- ===== src/Tests/Merchants.antt =====
-- The totals of three stored supports.
use vnst_be.Base.{◌≡◌, refl, ◌⊎◌, none, some, List, [], ◌∷◌, any, txt, ok, ℕ, false}
use vnst_be.Schema.Chains.{Token, vnst, usdt, bsc}
use vnst_be.Schema.Signed.{SignedAmount, pos}
use vnst_be.Schema.Merchant.{LiquiditySupport, LiquiditySupportType, support_in, support_out}
use vnst_be.Merchants.Totals.{TokenTotal, token_eq, get_total_liquidity}
use vnst_be.Merchants.TotalLaws.{
  lookup, net_liquidity, supports_of, IsSupported, lookup-get_total_liquidity,
}
use vnst_be.Tests.World.{world}

abbrev support : ℕ → LiquiditySupportType → LiquiditySupport
support n type = record {
  merchant = txt "m";
  amount = record { units = n; decimals = 6 };
  token = vnst;
  transaction_hash = txt "0xt";
  chain_id = bsc;
  type = type;
}

abbrev supports : List LiquiditySupport
supports = support 7 support_out ∷ support 3 support_in ∷ support 2 support_out ∷ []

abbrev totals : List (TokenTotal SignedAmount)
totals = record { id = vnst; total = record { units = pos 6; decimals = 6 } } ∷ []

totals-IsSupported : IsSupported 6 totals supports
totals-IsSupported = record {
  scaled = (refl, (refl, (refl, tt)));
  sums = (refl, tt);
  covers = covered;
}
  where
    covered : (t : Token) → any (λ i. token_eq i.id t) totals ≡ false → supports_of t supports ≡ []
    covered vnst h = absurd cc
    covered usdt h = refl

lookup-get_total_liquidity_example :
    (result : List (Token × SignedAmount)) × (get_total_liquidity (λ stages w. ok totals w) world
      ≡ ok result world)
    × ((t : Token)
        → (lookup t result ≡ some (net_liquidity 6 supports t))
          ⊎ ((lookup t result ≡ none) × (supports_of t supports ≡ [])))
lookup-get_total_liquidity_example =
    lookup-get_total_liquidity (λ stages w. ok totals w) 6 supports totals world world refl
      totals-IsSupported
