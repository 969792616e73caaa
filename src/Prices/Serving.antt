-- ===== src/Prices/Serving.antt =====
-- coingecko_prices/service.go: prices go from the updater into the cache, and from there to clients.
--
-- `cache_get` is `Get` of the cache, `top_market_ids` that of the markets service, and `unmarshal`
-- decodes the data of a token into a map.
pub mod Roundtrip
use market_proxy.Prelude.{
  ℕ, String, Bool, true, false, ◌&&◌, Option, none, some, List, [], ◌∷◌, ltb, ◌==◌, nat_eq,
  string_eq, if◌then◌else◌, length, map,
}
use market_proxy.Prelude.Int.{ℤ, pos, ltb_ℤ, leb_ℤ, int_eq}
use market_proxy.Prelude.Maps.{Map, lookup, insert}
use market_proxy.Prelude.Errors.{Error, msg, wrapped, Result, ok, err}
use market_proxy.Json.{Json, Fields, obj}
use market_proxy.Cache.{Store, GetResult, set}
use market_proxy.Config.Prices.{PriceTier, PricesFetcherConfig, prices_ttl}
use market_proxy.Events.{SubscriptionManager, Outcome, goes_on, blocked, panics, emit}
use market_proxy.Markets.Reading.{CacheStatus, full, partial, miss}
use market_proxy.Prices.Data.{PriceParams, create_token_id_cache_key, all_fields}
use market_proxy.Prices.Strip.{strip_response}

unfoldable pub max_token_to : ℤ → List PriceTier → ℤ
max_token_to top [] = top
max_token_to top (tier ∷ tiers) =
    max_token_to (if ltb_ℤ top tier.token_to then tier.token_to else top) tiers

-- `getMaxTokenLimit`
unfoldable pub get_max_token_limit : PricesFetcherConfig → ℤ
unfolding max_token_to
get_max_token_limit c =
    let top = max_token_to (pos 0) c.tiers in if top == pos 0 then pos 100_000 else top

-- `onMarketListChanged`: the ids for the updater, which keeps those it has if there is an error.
unfoldable pub on_market_list_changed :
    (ℤ → Result (List String)) → PricesFetcherConfig → List String → List String
unfolding get_max_token_limit
on_market_list_changed top_market_ids c ids = elim (top_market_ids (get_max_token_limit c)) [
  | ok new_ids ↦ new_ids
  | err e ↦ ids
]

-- `cacheData` of `cachePricesByID`.
unfoldable pub by_cache_key : Map String String → Map String String → Map String String
by_cache_key [] cache_data = cache_data
by_cache_key ((token_id, price) ∷ rest) cache_data =
    by_cache_key rest (insert (create_token_id_cache_key token_id) price cache_data)

module _ (store : Store) (c : PricesFetcherConfig) where
  -- `cachePricesByID`. `Set` of the cache returns no error.
  unfoldable pub cache_prices_by_id : store.State → ℕ → Map String String → store.State
  unfolding by_cache_key
  cache_prices_by_id s now [] = s
  cache_prices_by_id s now (price ∷ prices) =
      set store s now (by_cache_key (price ∷ prices) []) (prices_ttl c)

  -- `handleTopPricesUpdate` and `handleMissingExtraIdsUpdate`, which do the same: the cache is
  -- filled and the subscribers are told.
  unfoldable pub handle_update :
      (ℕ → Bool)
      → Map String String
      → ℕ
      → store.State
      → SubscriptionManager
      → store.State × Outcome SubscriptionManager
  unfolding cache_prices_by_id
  handle_update quits prices now s m = (cache_prices_by_id s now prices, emit quits m)

-- The status of an answer, by the numbers of keys.
unfoldable pub price_status : List String → GetResult → CacheStatus
price_status keys r =
    if length r.missing_keys == 0 && length r.found == length keys
    then full
    else if ltb 0 (length r.found)
    then partial
    else miss

module _ {F : Type 0} (unmarshal : String → Option (Fields F)) where
  abbrev pub put_token : String → Option String → Map String (Json F) → Map String (Json F)
  put_token token_id none response = response
  put_token token_id (some token_bytes) response = elim (unmarshal token_bytes) [
    | none ↦ response
    | some token_data ↦ insert token_id (obj token_data) response
  ]

  -- The loop of `SimplePrices` over the ids.
  unfoldable pub full_response :
      List String → Map String String → Map String (Json F) → Map String (Json F)
  full_response [] cached_data response = response
  full_response (token_id ∷ ids) cached_data response =
      full_response ids cached_data
        (put_token token_id (lookup (create_token_id_cache_key token_id) cached_data) response)

module _ {F : Type 0} (unmarshal : String → Option (Fields F)) (atoi : String → Option ℤ)
    (round : ℤ → F → F) (cache_get : List String → Result GetResult) where
  abbrev Answer : Type 0
  Answer = Result (Map String (Json F)) × CacheStatus

  abbrev pub answer : PriceParams → List String → Result GetResult → Answer
  answer params keys (err e) = (err (wrapped "failed to check cache" e), miss)
  answer params keys (ok r) = (
    ok (strip_response atoi round (full_response unmarshal params.ids r.found []) params),
    price_status keys r,
  )

  abbrev pub prices_of : PriceParams → List String → Answer
  prices_of params [] = (ok [], full)
  prices_of params (id ∷ ids) =
      let keys = map create_token_id_cache_key (id ∷ ids) in answer params keys (cache_get keys)

  -- `SimplePrices`
  unfoldable pub simple_prices : PriceParams → Answer
  unfolding full_response price_status
  simple_prices params = prices_of params params.ids

  -- `TopPrices`
  unfoldable pub top_prices : (ℤ → Result (List String)) → ℤ → List String → Answer
  unfolding simple_prices all_fields
  top_prices top_market_ids limit currencies = elim (top_market_ids limit) [
    | err e ↦ (err (wrapped "failed to get top market IDs" e), miss)
    | ok ids ↦ simple_prices (all_fields ids currencies)
  ]
