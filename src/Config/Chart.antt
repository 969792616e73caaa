-- ===== src/Config/Chart.antt =====
-- config/coingecko_market_chart_config.go
use market_proxy.Prelude.{Bool, false}
use market_proxy.Prelude.Int.{ℤ, pos}

pub record MarketChartFetcherConfig : Type 0 where
  pub hourly_ttl : ℤ
  pub daily_ttl : ℤ
  pub daily_data_threshold : ℤ
  pub try_free_api_first : Bool

abbrev pub get_default_market_chart_config : MarketChartFetcherConfig
get_default_market_chart_config = record {
  hourly_ttl = pos 1_800_000_000_000;
  daily_ttl = pos 43_200_000_000_000;
  daily_data_threshold = pos 90;
  try_free_api_first = false;
}
