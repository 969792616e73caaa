-- ===== src/Chart/Serving/Shared.antt =====
-- Requests that share what coingecko_market_chart/service.go keeps in the cache.
use market_proxy.Prelude.{
  ℕ, ◌+◌, ◌≤◌, String, ◌≡◌, refl, ◌∙◌, Bool, Option, none, some, List, [], ◌∷◌, string_eq,
}
use market_proxy.Prelude.Int.{ℤ, pos, pos_part, ◌<ℤ◌}
use market_proxy.Prelude.Maps.{Map, lookup, IsGoMap}
use market_proxy.Prelude.Errors.{Result, ok}
use market_proxy.Json.{Json}
use market_proxy.Cache.{Store, get, set}
use market_proxy.Cache.Laws.{IsGoCache, cached, get_lem, get-set}
use market_proxy.Config.Chart.{MarketChartFetcherConfig}
use market_proxy.Chart.{MarketChartParams, validate}
use market_proxy.Chart.Strip.{Value, strip_market_chart_response}
use market_proxy.Chart.Strip.Kept.{strip_market_chart_response-same}
use market_proxy.Chart.Serving.{
  create_cache_key, select_ttl, rounded_params, convert_bytes_to_interface, get_cached_data,
  cache_data, market_chart,
}

module _ {F W : Type 0} (unmarshal : String → Option (Json F))
    (unmarshal_raw : String → Option (Map String String))
    (marshal : Map String String → Result String) (points_of : Json F → Option (List (F × F)))
    (at_least : F → ℤ → Bool)
    (fetch_market_chart : MarketChartParams → W → Result (Map String String) × W) (store : Store)
    (c : MarketChartFetcherConfig) where
  abbrev chart :
      MarketChartParams → ℕ → store.State → W → Result (Map String (Value F)) × store.State × W
  chart p now s w =
      market_chart unmarshal unmarshal_raw marshal points_of at_least fetch_market_chart store c p
        now s w

  -- What `json.Marshal` makes of a map of raw messages is read back as a map with the same values, in
  -- whatever order.
  abbrev pub IsReadBack : Type 0
  IsReadBack =
      (raw : Map String String) (b : String)
      → IsGoMap raw
      → marshal raw ≡ ok b
      → (back : Map String String) × (unmarshal_raw b ≡ some back)
        × ((key : String)
            → lookup key (convert_bytes_to_interface unmarshal back)
              ≡ lookup key (convert_bytes_to_interface unmarshal raw))

  module _ (laws : IsGoCache store) (read_back : IsReadBack) (now later : ℕ) (a : now ≤ later)
      (p : MarketChartParams) (ttl : pos 0 <ℤ select_ttl c (rounded_params c p))
      (l : later ≤ now + pos_part (select_ttl c (rounded_params c p))) where
    found-set :
        (s : store.State) (back : Map String String) (key b : String)
        → unmarshal_raw b ≡ some back
        → get_cached_data unmarshal unmarshal_raw store
            (set store s now ((key, b) ∷ []) (select_ttl c (rounded_params c p)))
            later
            key
          ≡ some (convert_bytes_to_interface unmarshal back)
    unfolding get_cached_data lookup
    found-set s back key b m =
        let after = set store s now ((key, b) ∷ []) (select_ttl c (rounded_params c p)) in
        let self = (string_eq.same_iff key key).1 refl in
        let kept : cached store after later key ≡ some b =
          get-set store laws s now later ((key, b) ∷ []) (select_ttl c (rounded_params c p)) key
            (tt, tt) ttl a l
          ∙ rw self refl in
        let answer : lookup key (get store after later (key ∷ [])).found ≡ some b =
          (get_lem store after later (key ∷ [])).0 key ∙ rw self kept in
        rw (answer, m) refl

    -- With JSON that reads back the maps it writes: a chart that was fetched for a valid request is
    -- kept; until its time is over, every valid request whose wider request has the same key is
    -- answered from it, each key stripped to what was asked for, without another fetch and without
    -- a change of the cache.
    pub market_chart-shared :
        (s : store.State) (w next : W) (raw : Map String String) (w' : W) (b : String)
        (p' : MarketChartParams)
        → IsGoMap raw
        → validate p ≡ none
        → get_cached_data unmarshal unmarshal_raw store s now
            (create_cache_key (rounded_params c p))
          ≡ none
        → fetch_market_chart (rounded_params c p) w ≡ (ok raw, w')
        → marshal raw ≡ ok b
        → validate p' ≡ none
        → create_cache_key (rounded_params c p') ≡ create_cache_key (rounded_params c p)
        → (served : Map String (Value F)) × (chart p' later (chart p now s w).1 next
            ≡ (ok served, (chart p now s w).1, next))
          × ((asked : String)
              → lookup asked served
                ≡ lookup asked (
                    strip_market_chart_response points_of at_least later p'
                      (convert_bytes_to_interface unmarshal raw)))
    unfolding market_chart cache_data
    market_chart-shared s w next raw w' b p' once valid absent fetched m valid' key =
        let (back, read, same) = read_back raw b once m in
        (
          strip_market_chart_response points_of at_least later p'
              (convert_bytes_to_interface unmarshal back),
          rw
              (
                valid,
                absent,
                fetched,
                m,
                valid',
                key,
                found-set s back (create_cache_key (rounded_params c p)) b read,
              )
              refl,
          (λ asked.
              strip_market_chart_response-same points_of at_least later p'
                (convert_bytes_to_interface unmarshal back)
                (convert_bytes_to_interface unmarshal raw) asked (same asked)),
        )
