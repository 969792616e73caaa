-- ===== src/Markets/ReadExamples.antt =====
-- Runs of the reading side of coingecko_markets on concrete inputs, over a store of one entry that
-- forgets what it is given.
use market_proxy.Prelude.{
  String, ◌≡◌, ◌↔◌, refl, Option, none, some, List, [], ◌∷◌, map, ◌==◌, string_eq, if◌then◌else◌,
  different, false,
}
use market_proxy.Prelude.Int.{pos}
use market_proxy.Cache.{Store, bytes}
use market_proxy.Cache.Laws.{absent}
use market_proxy.Config.Markets.{MarketsFetcherConfig}
use market_proxy.Markets.Params.{MarketsParams}
use market_proxy.Markets.Keys.{get_cache_key}
use market_proxy.Markets.Reading.{full, miss, markets_by_ids}
use market_proxy.Markets.Reading.Status.{read, NoneCached, markets_by_ids_status}

abbrev one_token : Store
one_token = record {
  State = Unit;
  get = λ s now k. if k == "markets:bitcoin" then some (bytes "{}") else none;
  set = λ s now k item ttl. s;
  delete = λ s k. s;
  flush = λ s. s;
}

abbrev plain : MarketsFetcherConfig
plain = record { request_delay = pos 0; market_params_normalize = none; tiers = []; ttl = pos 0 }

abbrev two_ids : MarketsParams
two_ids = record {
  currency = "usd";
  order = "";
  page = pos 0;
  per_page = pos 0;
  category = "";
  ids = "tether" ∷ "bitcoin" ∷ [];
  sparkline_enabled = false;
  price_change_percentage = [];
}

abbrev no_page : String → Option (List String)
no_page s = none

markets_by_ids_status_example :
    (((markets_by_ids some no_page (read some no_page one_token tt 0 plain) plain two_ids).1 ≡ full)
      ↔ (absent one_token tt 0 (map get_cache_key ("tether" ∷ "bitcoin" ∷ [])) ≡ []))
    × (((markets_by_ids some no_page (read some no_page one_token tt 0 plain) plain two_ids).1
          ≡ miss)
        ↔ NoneCached some no_page one_token tt 0 plain
            (map get_cache_key ("tether" ∷ "bitcoin" ∷ [])))
markets_by_ids_status_example =
    markets_by_ids_status some no_page one_token tt 0 plain two_ids (λ e. absurd cc)
      ((different "tether" "bitcoin" refl, tt), (tt, tt))
