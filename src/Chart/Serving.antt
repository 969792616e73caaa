-- ===== src/Chart/Serving.antt =====
-- coingecko_market_chart/service.go: charts from the cache, or from the network by way of the cache.
--
-- `fetch_market_chart` is the API client, which passes on a state `W`. `marshal` and `unmarshal_raw`
-- are `json.Marshal` and `json.Unmarshal` of a map of raw messages, and `unmarshal` that of a value.
pub mod Shared
use market_proxy.Prelude.{
  ℕ, String, Bool, Option, none, some, List, [], ◌∷◌, ◌==◌, string_eq, if◌then◌else◌,
}
use market_proxy.Prelude.Int.{ℤ, leb_ℤ}
use market_proxy.Prelude.Maps.{Map, lookup}
use market_proxy.Prelude.Text.{concat}
use market_proxy.Prelude.Decimal.{atoi}
use market_proxy.Prelude.Errors.{Error, wrapped, Result, ok, err}
use market_proxy.Json.{Json}
use market_proxy.Cache.{Store, get, set}
use market_proxy.Config.Chart.{MarketChartFetcherConfig}
use market_proxy.Chart.{MarketChartParams, validate, round_up_market_chart_params}
use market_proxy.Chart.Strip.{Value, decoded, strip_market_chart_response}

abbrev pub joined : List String → String
joined [] = ""
joined (s ∷ ss) = concat s (joined ss)

-- `createCacheKey`
unfoldable pub create_cache_key : MarketChartParams → String
create_cache_key p =
    let base_key = joined ("market_chart:" ∷ p.id ∷ ":" ∷ p.currency ∷ ":days:" ∷ p.days ∷ []) in
    if p.interval == "" then base_key else concat base_key (concat ":interval:" p.interval)

abbrev pub number_ttl : MarketChartFetcherConfig → Option ℤ → ℤ
number_ttl c none = c.daily_ttl
number_ttl c (some days) = if leb_ℤ days c.daily_data_threshold then c.hourly_ttl else c.daily_ttl

-- `selectTTL`
unfoldable pub select_ttl : MarketChartFetcherConfig → MarketChartParams → ℤ
select_ttl c p =
    if p.days == "max"
    then c.daily_ttl
    else (if p.days == "" then c.daily_ttl else number_ttl c (atoi p.days))

abbrev pub default_to : String → String → String
default_to default value = if value == "" then default else value

-- The defaults of `MarketChart`.
unfoldable pub with_defaults : MarketChartParams → MarketChartParams
with_defaults p = record p { currency = default_to "usd" p.currency; days = default_to "30" p.days }

unfoldable pub rounded_params : MarketChartFetcherConfig → MarketChartParams → MarketChartParams
unfolding with_defaults
rounded_params c p = round_up_market_chart_params (with_defaults p) c.daily_data_threshold

module _ {F : Type 0} (unmarshal : String → Option (Json F)) where
  abbrev pub put_value : String → Option (Json F) → Map String (Value F) → Map String (Value F)
  put_value key none rest = rest
  put_value key (some v) rest = (key, decoded v) ∷ rest

  -- `convertBytesToInterface`; what cannot be decoded is left out.
  unfoldable pub convert_bytes_to_interface : Map String String → Map String (Value F)
  convert_bytes_to_interface [] = []
  convert_bytes_to_interface ((key, value) ∷ rest) =
      put_value key (unmarshal value) (convert_bytes_to_interface rest)

module _ {F : Type 0} (unmarshal : String → Option (Json F))
    (unmarshal_raw : String → Option (Map String String)) (store : Store) where
  abbrev pub decode_cached : Option (Map String String) → Option (Map String (Value F))
  decode_cached none = none
  decode_cached (some raw) = some (convert_bytes_to_interface unmarshal raw)

  abbrev pub decode_found : Option String → Option (Map String (Value F))
  decode_found none = none
  decode_found (some data_) = decode_cached (unmarshal_raw data_)

  -- `getCachedData`; none stands for its errors, of which only that there is one matters.
  unfoldable pub get_cached_data : store.State → ℕ → String → Option (Map String (Value F))
  unfolding convert_bytes_to_interface
  get_cached_data s now cache_key =
      decode_found (lookup cache_key (get store s now (cache_key ∷ [])).found)

module _ (marshal : Map String String → Result String) (store : Store)
    (c : MarketChartFetcherConfig) where
  abbrev pub set_marshalled : store.State → ℕ → String → ℤ → Result String → store.State
  set_marshalled s now cache_key ttl (err e) = s
  set_marshalled s now cache_key ttl (ok data_bytes) =
      set store s now ((cache_key, data_bytes) ∷ []) ttl

  -- `cacheData`; its error is logged.
  unfoldable pub cache_data :
      store.State → ℕ → String → Map String String → MarketChartParams → store.State
  unfolding select_ttl
  cache_data s now cache_key chart_data p =
      set_marshalled s now cache_key (select_ttl c p) (marshal chart_data)

module _ {F W : Type 0} (unmarshal : String → Option (Json F))
    (unmarshal_raw : String → Option (Map String String))
    (marshal : Map String String → Result String) (points_of : Json F → Option (List (F × F)))
    (at_least : F → ℤ → Bool)
    (fetch_market_chart : MarketChartParams → W → Result (Map String String) × W) (store : Store)
    (c : MarketChartFetcherConfig) where
  abbrev pub stripped : ℕ → MarketChartParams → Map String (Value F) → Map String (Value F)
  stripped now p chart_data = strip_market_chart_response points_of at_least now p chart_data

  abbrev pub after_fetch :
      MarketChartParams
      → ℕ
      → store.State
      → Result (Map String String) × W
      → Result (Map String (Value F)) × store.State × W
  after_fetch p now s (err e, w) = (err (wrapped "failed to fetch market chart data" e), s, w)
  after_fetch p now s (ok fetched, w) = (
    ok (stripped now p (convert_bytes_to_interface unmarshal fetched)),
    cache_data marshal store c s now (create_cache_key (rounded_params c p)) fetched
        (rounded_params c p),
    w,
  )

  abbrev pub cached_or_fetched :
      MarketChartParams
      → ℕ
      → store.State
      → W
      → Option (Map String (Value F))
      → Result (Map String (Value F)) × store.State × W
  cached_or_fetched p now s w (some chart_data) = (ok (stripped now p chart_data), s, w)
  cached_or_fetched p now s w none = after_fetch p now s (fetch_market_chart (rounded_params c p) w)

  abbrev pub if_valid :
      MarketChartParams
      → ℕ
      → store.State
      → W
      → Option Error
      → Result (Map String (Value F)) × store.State × W
  if_valid p now s w (some e) = (err (wrapped "invalid parameters" e), s, w)
  if_valid p now s w none =
      cached_or_fetched p now s w (
        get_cached_data unmarshal unmarshal_raw store s now (create_cache_key (rounded_params c p)))

  -- `MarketChart`
  unfoldable pub market_chart :
      MarketChartParams → ℕ → store.State → W → Result (Map String (Value F)) × store.State × W
  unfolding cache_data
  market_chart p now s w = if_valid p now s w (validate p)
