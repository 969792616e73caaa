-- ===== src/ById/Examples.antt =====
-- One item from the updater through the cache to a client.
use market_proxy.Prelude.{◌+◌, ◌≤◌, String, ◌≡◌, [], ◌∷◌, false, string_eq, arith}
use market_proxy.Prelude.Int.{pos, pos_part}
use market_proxy.Prelude.Maps.{Map, lookup, or_in}
use market_proxy.Cache.Laws.{cached}
use market_proxy.Cache.MapStore.{map_store, map_store-IsGoCache}
use market_proxy.Config.FetcherById.{FetcherByIdConfig, build_cache_key, get_ttl}
use market_proxy.Events.{goes_on, made}
use market_proxy.ById.Serving.{Service, on_data_updated, get_by_id}
use market_proxy.ById.Serving.Served.{answer_of, get_by_id-on_data_updated}

abbrev coins : FetcherByIdConfig
coins = record {
  name = "coins";
  endpoint_path = "/api/v3/coins/{{id}}";
  ttl = pos 0;
  chunk_size = pos 0;
  tiers = [];
}

abbrev one_coin : Map String String
one_coin = ("bitcoin", "{}") ∷ []

abbrev empty_service : Service map_store
empty_service = record {
  cache = [];
  subscription_manager = goes_on (record { next = 1; channels = λ ch. made; subscribers = 0 ∷ [] });
}

within_ttl : 9 ≤ 5 + pos_part (get_ttl coins)
unfolding get_ttl
within_ttl = omega arith

get_by_id-on_data_updated_example :
    get_by_id map_store coins
      (on_data_updated map_store coins (λ ch. false) one_coin 5 empty_service).cache
      9
      "bitcoin"
    ≡ answer_of (
        or_in (lookup "bitcoin" one_coin) (cached map_store [] 9 (build_cache_key coins "bitcoin")))
get_by_id-on_data_updated_example =
    get_by_id-on_data_updated map_store coins map_store-IsGoCache 5 9 (omega arith) within_ttl
      (λ ch. false) one_coin empty_service "bitcoin" (tt, tt)
