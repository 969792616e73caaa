-- ===== src/Markets/FillExamples.antt =====
-- Runs from the updater of coingecko_markets through the cache to clients.
use market_proxy.Prelude.{
  ℕ, ◌+◌, ◌≤◌, ◌≡◌, String, Option, none, some, List, [], ◌∷◌, true, false, if◌then◌else◌,
  string_eq, arith,
}
use market_proxy.Prelude.Int.{ℤ, pos, pos_part, int_eq}
use market_proxy.Prelude.Maps.{Map}
use market_proxy.Prelude.Errors.{Result, ok}
use market_proxy.Json.{Json, obj, str, end, field}
use market_proxy.Cache.MapStore.{map_store, map_store-IsGoCache}
use market_proxy.Config.Markets.{MarketTier, MarketsFetcherConfig, markets_ttl}
use market_proxy.Events.{goes_on, made}
use market_proxy.Markets.Data.{PageData}
use market_proxy.Markets.Params.{MarketsParams}
use market_proxy.Markets.Reading.{markets_by_ids}
use market_proxy.Markets.Reading.Status.{read}
use market_proxy.Markets.Coins.{CoinGeckoData}
use market_proxy.Markets.Updater.{TierDataWithTimestamp}
use market_proxy.Markets.Updater.Update.{Updater, tier_pages, fetch_and_update_tier}
use market_proxy.Markets.Updater.Kept.{IsUpdated, paging_result, fetch_and_update_tier-IsUpdated}
use market_proxy.Markets.Filling.{Service, handle_tier_pages_update}
use market_proxy.Markets.Filling.Served.{tokens_of, markets_by_ids-handle_tier_pages_update}

abbrev plain : MarketsFetcherConfig
plain = record { request_delay = pos 0; market_params_normalize = none; tiers = []; ttl = pos 0 }

-- The bytes of a token are its id here.
abbrev parsed : String → Option (Json ℕ)
parsed bytes = some (obj (field "id" (str bytes) end))

abbrev joined : List String → Result String
joined tokens = ok "[...]"

abbrev no_page : String → Option (List String)
no_page s = none

abbrev first_page : List PageData
first_page = record { page = pos 1; items = "bitcoin" ∷ "ethereum" ∷ [] } ∷ []

abbrev empty_service : Service map_store
empty_service = record {
  cache = [];
  top_ids_manager = record { page_to_ids = []; top_ids = []; dirty = false };
  subscription_manager = goes_on (record { next = 1; channels = λ ch. made; subscribers = 0 ∷ [] });
}

abbrev two_ids : MarketsParams
two_ids = record {
  currency = "usd";
  order = "";
  page = pos 0;
  per_page = pos 0;
  category = "";
  ids = "tether" ∷ "bitcoin" ∷ [];
  sparkline_enabled = false;
  price_change_percentage = [];
}

within_ttl : 9 ≤ 5 + pos_part (markets_ttl plain)
unfolding markets_ttl
within_ttl = omega arith

markets_by_ids-handle_tier_pages_update_example :
    (markets_by_ids some no_page
      (read some no_page map_store
        (handle_tier_pages_update map_store plain parsed joined joined
          (λ ch. false)
          first_page
          5
          empty_service).cache
        9
        plain)
      plain
      two_ids).0
    ≡ ok (
        tokens_of map_store map_store-IsGoCache plain parsed 5 9
          (omega arith)
          within_ttl
          joined
          joined
          some
          no_page
          first_page
          []
          ("tether" ∷ "bitcoin" ∷ []))
markets_by_ids-handle_tier_pages_update_example =
    markets_by_ids-handle_tier_pages_update map_store map_store-IsGoCache plain parsed 5 9
      (omega arith) within_ttl joined joined some no_page (λ ch. false) first_page empty_service
      two_ids

-- The client has one page, of one token.
abbrev one_page : MarketsParams → ℕ → Result (List String) × ℕ
one_page params n = (ok (if int_eq.same params.page (pos 1) then "bitcoin" ∷ [] else []), n + 1)

abbrev no_sleep : ℤ → ℕ → ℕ
no_sleep delay n = n

abbrev top_tier : MarketTier
top_tier = record {
  name = "top";
  page_from = pos 1;
  page_to = pos 2;
  update_interval = pos 60_000_000_000;
  fetch_coinslist_ids = true;
}

abbrev truncated : ℕ → ℤ
truncated n = pos n

abbrev fresh_updater : Updater ℕ
fresh_updater = record {
  tiers = [];
  extra_ids = "status" ∷ [];
  initial_load = record { completed_tiers = []; all_completed = false };
}

fetch_and_update_tier-IsUpdated_example :
    IsUpdated parsed 0 truncated one_page no_sleep
      (λ n. false)
      plain
      top_tier
      7
      "top"
      fresh_updater
      (paging_result
        (tier_pages parsed 0 truncated one_page no_sleep (λ n. false) plain top_tier 0))
      (fetch_and_update_tier parsed 0 truncated one_page no_sleep
        (λ n. false)
        plain
        top_tier
        5
        7
        fresh_updater
        0)
fetch_and_update_tier-IsUpdated_example =
    fetch_and_update_tier-IsUpdated parsed 0 truncated one_page no_sleep (λ n. false) plain top_tier
      5 7 "top" fresh_updater 0

abbrev no_tiers : Map String (TierDataWithTimestamp (CoinGeckoData ℕ))
no_tiers = ("top", record { coins = []; timestamp = some 5; update_start_time = none }) ∷ []
