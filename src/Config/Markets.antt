-- ===== src/Config/Markets.antt =====
-- config/coingecko_markets_config.go
use market_proxy.Prelude.{String, Bool, Option, List, map, if◌then◌else◌}
use market_proxy.Prelude.Int.{ℤ, pos, ltb_ℤ}
use market_proxy.Prelude.Errors.{Error}
use market_proxy.Config.Tiers.{Tier, validate_tiers, wrap_error}

-- A pointer that may be nil is an `Option`.
pub record MarketParamsNormalize : Type 0 where
  pub vs_currency : Option String
  pub order : Option String
  pub per_page : Option ℤ
  pub sparkline : Option Bool
  pub price_change_percentage : Option String
  pub category : Option String

pub record MarketTier : Type 0 where
  pub name : String
  pub page_from : ℤ
  pub page_to : ℤ
  pub update_interval : ℤ
  pub fetch_coinslist_ids : Bool

-- Durations are in nanoseconds.
pub record MarketsFetcherConfig : Type 0 where
  pub request_delay : ℤ
  pub market_params_normalize : Option MarketParamsNormalize
  pub tiers : List MarketTier
  pub ttl : ℤ

abbrev pub market_tier : MarketTier → Tier
market_tier t = record {
  name = t.name;
  range_from = t.page_from;
  range_to = t.page_to;
  update_interval = t.update_interval;
}

-- `Validate` of `MarketsFetcherConfig`
unfoldable pub validate_markets : MarketsFetcherConfig → Option Error
validate_markets c =
    wrap_error "tier configuration validation failed" (validate_tiers (map market_tier c.tiers))

-- `GetTTL`: thirty minutes by default.
unfoldable pub markets_ttl : MarketsFetcherConfig → ℤ
markets_ttl c = if ltb_ℤ (pos 0) c.ttl then c.ttl else pos 1_800_000_000_000
