-- ===== src/Prices/Examples.antt =====
-- Witnesses for the prices: one token with three fields, two tiers, and an extra id.
use market_proxy.Prelude.{
  ℕ, ◌+◌, ◌≤◌, ◌≡◌, ◌↔◌, ◌⊎◌, refl, true, false, String, Option, none, some, List, [], ◌∷◌,
  string_eq, if◌then◌else◌, take, In, arith,
}
use market_proxy.Prelude.Int.{ℤ, pos, pos_part}
use market_proxy.Prelude.Maps.{Map, lookup, or_in}
use market_proxy.Prelude.Sets.{is_in}
use market_proxy.Prelude.Errors.{ok}
use market_proxy.Json.{Json, Fields, num, end, field}
use market_proxy.Cache.Laws.{cached}
use market_proxy.Cache.MapStore.{map_store, map_store-IsGoCache}
use market_proxy.Config.Prices.{PriceTier, PricesFetcherConfig, prices_ttl}
use market_proxy.Prices.Data.{PriceParams, create_token_id_cache_key}
use market_proxy.Prices.Strip.Served.{field_in, field_of, served}
use market_proxy.Prices.Serving.{cache_prices_by_id, simple_prices}
use market_proxy.Prices.Serving.Roundtrip.{token, read, simple_prices-cache_prices_by_id}
use market_proxy.Prices.Updater.{TierDataWithTimestamp}
use market_proxy.Prices.Updater.Update.{find_missing_or_stale_ids}
use market_proxy.Prices.Updater.Range.{fetched_ids, tiers_cover}
use market_proxy.Prices.Updater.Stale.{IsMissing, IsStale, find_missing_or_stale_ids_iff}

abbrev tier_of : String → ℕ → ℕ → PriceTier
tier_of name from to = record {
  name = name;
  token_from = pos from;
  token_to = pos to;
  update_interval = pos 60_000_000_000;
  fetch_coinslist_ids = false;
}

abbrev two_tiers : List PriceTier
two_tiers = tier_of "top" 1 2 ∷ tier_of "rest" 3 10 ∷ []

abbrev config : PricesFetcherConfig
config = record {
  chunk_size = pos 0;
  request_delay = pos 0;
  currencies = [];
  ttl = pos 0;
  tiers = two_tiers;
}

abbrev usd_with_vol : PriceParams
usd_with_vol = record {
  ids = "bitcoin" ∷ "status" ∷ [];
  currencies = "usd" ∷ [];
  include_market_cap = false;
  include_24hr_vol = true;
  include_24hr_change = false;
  include_last_updated_at = false;
  precision = "2";
}

-- Floats are numbers of cents here, and every token has the same data.
abbrev parsed : String → Option (Fields ℕ)
parsed bytes = some (field "usd" (num 100) (field "eur" (num 90) (field "usd_24h_vol" (num 7) end)))

abbrev no_number : String → Option ℤ
no_number s = none

abbrev same_number : ℤ → ℕ → ℕ
same_number precision value = value

abbrev new_prices : Map String String
new_prices = ("bitcoin", "{...}") ∷ []

below_ttl : 9 ≤ 5 + pos_part (prices_ttl config)
unfolding prices_ttl
below_ttl = omega arith

simple_prices-cache_prices_by_id_example :
    (response : Map String (Json ℕ)) × ((simple_prices parsed no_number same_number
        (read parsed no_number same_number map_store config
          (cache_prices_by_id map_store config [] 5 new_prices)
          9)
        usd_with_vol).0
      ≡ ok response)
    × (field_of "bitcoin" "usd" response
        ≡ served no_number same_number usd_with_vol "usd" (
            field_in "usd" (
              if is_in "bitcoin" usd_with_vol.ids
              then token parsed (
                  or_in
                    (lookup "bitcoin" new_prices)
                    (cached map_store [] 9 (create_token_id_cache_key "bitcoin")))
              else none)))
simple_prices-cache_prices_by_id_example =
    simple_prices-cache_prices_by_id parsed no_number same_number map_store config
      map_store-IsGoCache [] 5 9 new_prices usd_with_vol "bitcoin" "usd" (tt, tt) (omega arith)
      below_ttl

abbrev vol_field : String
vol_field = "usd_24h_vol"

abbrev usd : List String
usd = "usd" ∷ []

abbrev status_id : String
status_id = "status"

tiers_cover_example :
    fetched_ids ("bitcoin" ∷ "ethereum" ∷ "status" ∷ []) two_tiers
    ≡ take 10 ("bitcoin" ∷ "ethereum" ∷ "status" ∷ [])
tiers_cover_example =
    tiers_cover two_tiers 10 ("bitcoin" ∷ "ethereum" ∷ "status" ∷ [])
      (2, (refl, refl, omega arith), (10, (refl, refl, omega arith), refl))

abbrev data_at_5 : TierDataWithTimestamp
data_at_5 = record { prices = new_prices; timestamp = some 5; update_start_time = none }

abbrev top_data : Map String TierDataWithTimestamp
top_data = ("top", data_at_5) ∷ []

find_missing_or_stale_ids_iff_example :
    In status_id (find_missing_or_stale_ids (pos 15) 9 ("bitcoin" ∷ "status" ∷ []) top_data) ↔ (
      In status_id ("bitcoin" ∷ "status" ∷ [])
      × (IsMissing "status" top_data ⊎ IsStale (pos 15) 9 "status" top_data))
find_missing_or_stale_ids_iff_example =
    find_missing_or_stale_ids_iff (pos 15) 9 ("bitcoin" ∷ "status" ∷ []) top_data "status"
