-- ===== src/Config/Prices.antt =====
-- config/coingecko_prices_config.go
use market_proxy.Prelude.{String, Bool, Option, List, map, if◌then◌else◌}
use market_proxy.Prelude.Int.{ℤ, pos, ltb_ℤ}
use market_proxy.Prelude.Errors.{Error}
use market_proxy.Config.Tiers.{Tier, validate_tiers, wrap_error}

pub record PriceTier : Type 0 where
  pub name : String
  pub token_from : ℤ
  pub token_to : ℤ
  pub update_interval : ℤ
  pub fetch_coinslist_ids : Bool

pub record PricesFetcherConfig : Type 0 where
  pub chunk_size : ℤ
  pub request_delay : ℤ
  pub currencies : List String
  pub ttl : ℤ
  pub tiers : List PriceTier

abbrev pub price_tier : PriceTier → Tier
price_tier t = record {
  name = t.name;
  range_from = t.token_from;
  range_to = t.token_to;
  update_interval = t.update_interval;
}

-- `Validate` of `PricesFetcherConfig`
unfoldable pub validate_prices : PricesFetcherConfig → Option Error
validate_prices c =
    wrap_error "tier configuration validation failed" (validate_tiers (map price_tier c.tiers))

-- `GetTTL`: thirty seconds by default.
unfoldable pub prices_ttl : PricesFetcherConfig → ℤ
prices_ttl c = if ltb_ℤ (pos 0) c.ttl then c.ttl else pos 30_000_000_000
