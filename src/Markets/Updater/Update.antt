-- ===== src/Markets/Updater/Update.antt =====
-- coingecko_markets/periodic_updater.go: what one update of a tier fetches, stores and hands over.
--
-- `fetch_page` is the API client and `sleep` the pause between two pages; both pass on a state `W`.
-- What an update calls back is a list. A panic inside an update is recovered from, and ends it.
use market_proxy.Prelude.{
  ℕ, ◌/◌, String, Bool, true, false, ◌&&◌, ◌||◌, not, Option, none, some, List, [], ◌∷◌, ◌++◌, ◌==◌,
  string_eq, if◌then◌else◌,
}
use market_proxy.Prelude.Int.{ℤ, pos, pos_part, milliseconds, ltb_ℤ}
use market_proxy.Prelude.Maps.{Map, lookup}
use market_proxy.Prelude.Errors.{Error, wrapped, Result, ok, err}
use market_proxy.Json.{Json}
use market_proxy.Config.Markets.{MarketTier, MarketsFetcherConfig, markets_ttl, validate_markets}
use market_proxy.Markets.Data.{PageData}
use market_proxy.Markets.Coins.{CoinGeckoData, convert_markets_response}
use market_proxy.Markets.Params.{MarketsParams, apply_params_override}
use market_proxy.Markets.Paging.{new_paginated_fetcher, fetch_pages, items_of}
use market_proxy.Markets.Chunks.{
  Fetching, new_chunks_fetcher, chunks_default_chunk_size, fetch_markets,
}
use market_proxy.Markets.Updater.{
  TierDataWithTimestamp, since, set_tier_update_start_time, store_tier, InitialLoad,
  check_and_trigger_initial_load_completed,
}

-- `PeriodicUpdater`: `cache.tiers`, `extraIds.ids` and `initialLoad`, which have a lock each.
pub record Updater (F : Type 0) : Type 0 where
  pub tiers : Map String (TierDataWithTimestamp (CoinGeckoData F))
  pub extra_ids : List String
  pub initial_load : InitialLoad

pub data Callback : Type 0 where
  on_update_tier_pages : MarketTier → List PageData → Callback
  on_update_missing_extra_ids : List String → Callback
  on_initial_load_completed : Callback

-- In milliseconds.
abbrev pub markets_default_request_delay : ℤ
markets_default_request_delay = pos 1000

abbrev pub request_delay_ms : MarketsFetcherConfig → ℤ
request_delay_ms c =
    let ms = milliseconds c.request_delay in
    if ltb_ℤ ms (pos 0) then markets_default_request_delay else ms

abbrev pub no_params : List String → MarketsParams
no_params ids = record {
  currency = "";
  order = "";
  page = pos 0;
  per_page = pos 0;
  category = "";
  ids = ids;
  sparkline_enabled = false;
  price_change_percentage = [];
}

abbrev invalid : Option Error → Option Error
invalid none = none
invalid (some e) = some (wrapped "invalid configuration" e)

-- `Start`: the error of the validation, or the scheduler starts.
unfoldable pub start : MarketsFetcherConfig → Option Error
start c = invalid (validate_markets c)

module _ {F : Type 0} where
  unfoldable pub new_periodic_updater : Updater F
  new_periodic_updater = record {
    tiers = [];
    extra_ids = [];
    initial_load = record { completed_tiers = []; all_completed = false };
  }

  unfoldable pub set_extra_ids : List String → Updater F → Updater F
  set_extra_ids ids u = record u { extra_ids = ids }

  unfoldable pub all_coins :
      Map String (TierDataWithTimestamp (CoinGeckoData F)) → List (CoinGeckoData F)
  all_coins [] = []
  all_coins ((name, d) ∷ tiers) = d.coins ++ all_coins tiers

  abbrev some_data : List (CoinGeckoData F) → Option (List (CoinGeckoData F))
  some_data [] = none
  some_data (coin ∷ coins) = some (coin ∷ coins)

  unfoldable pub get_cache_data : Updater F → Option (List (CoinGeckoData F))
  unfolding all_coins
  get_cache_data u = some_data (all_coins u.tiers)

  abbrev coins_in :
      Option (TierDataWithTimestamp (CoinGeckoData F)) → Option (List (CoinGeckoData F))
  coins_in none = none
  coins_in (some d) = some d.coins

  unfoldable pub get_cache_data_for_tier : String → Updater F → Option (List (CoinGeckoData F))
  get_cache_data_for_tier tier_name u = coins_in (lookup tier_name u.tiers)

  -- `Healthy`; the client is healthy, or there is none.
  unfoldable pub healthy : Option Bool → Updater F → Bool
  unfolding get_cache_data
  healthy client u = elim (get_cache_data u) [
    | some d ↦ true
    | none ↦ elim client [ none ↦ false | some h ↦ h ]
  ]

  abbrev pub has_coin : String → List (CoinGeckoData F) → Bool
  has_coin id [] = false
  has_coin id (coin ∷ coins) = let rest = has_coin id coins in coin.id == id || rest

  -- The loop over the tiers for one id, with `found` and `isStale`.
  unfoldable pub missing_or_stale_from :
      ℤ → ℕ → String → Bool → Bool → Map String (TierDataWithTimestamp (CoinGeckoData F)) → Bool
  missing_or_stale_from half now id found is_stale [] = not found || is_stale
  missing_or_stale_from half now id found is_stale ((name, d) ∷ tiers) =
      let has = has_coin id d.coins in
      let found' = found || has in
      let stale' = is_stale || has && ltb_ℤ half (since now d.timestamp) in
      let rest = missing_or_stale_from half now id found' stale' tiers in
      if found' && not stale' then not found' || stale' else rest

  -- `findMissingOrStaleIds`. Each id has a `range` of its own over the tiers, which is a map: `tiers id`
  -- are the tiers in the order in which that one meets them.
  unfoldable pub find_missing_or_stale_ids :
      ℤ
      → ℕ
      → List String
      → (String → Map String (TierDataWithTimestamp (CoinGeckoData F)))
      → List String
  unfolding missing_or_stale_from
  find_missing_or_stale_ids half now [] tiers = []
  find_missing_or_stale_ids half now (id ∷ ids) tiers =
      let rest = find_missing_or_stale_ids half now ids tiers in
      if missing_or_stale_from half now id false false (tiers id) then id ∷ rest else rest

-- The state of the paging: that of the client, and the calls of the callback so far.
pub record Paged (W : Type 0) : Type 0 where
  pub world : W
  pub pages : List PageData

module _ {F W : Type 0} (unmarshal : String → Option (Json F)) (zero_float : F) (truncate : F → ℤ)
    (fetch_page : MarketsParams → W → Result (List String) × W) (sleep : ℤ → W → W)
    (done : ℕ → Bool) (c : MarketsFetcherConfig) where
  abbrev pub page_answer : Result (List String) × W → List PageData → Result (List String) × Paged W
  page_answer (r, w) calls = (r, record { world = w; pages = calls })

  abbrev pub note_page : PageData → Paged W → Paged W
  note_page p s = record s { pages = s.pages ++ p ∷ [] }

  -- The pages of a tier, with the calls of the callback. `none` is the panic of `FetchPages`.
  abbrev pub tier_pages : MarketTier → W → Option (Result (List PageData) × Paged W)
  tier_pages tier w =
      fetch_pages (λ params (s : Paged W). page_answer (fetch_page params s.world) s.pages)
        (some note_page) (λ delay (s : Paged W). record s { world = sleep delay s.world })
        (new_paginated_fetcher tier.page_from tier.page_to (request_delay_ms c)
          (apply_params_override c.market_params_normalize (no_params [])))
        (record { world = w; pages = [] })

  abbrev pub missing_chunk_size : MarketsParams → ℤ
  missing_chunk_size params =
      if ltb_ℤ (pos 0) params.per_page && ltb_ℤ params.per_page chunks_default_chunk_size
      then params.per_page
      else chunks_default_chunk_size

  abbrev pub each_missing : List (List String) → List Callback
  each_missing [] = []
  each_missing (chunk ∷ chunks) = on_update_missing_extra_ids chunk ∷ each_missing chunks

  abbrev pub noted_chunks : Result (List String) × Fetching W → List Callback × W
  noted_chunks (r, f) = (each_missing f.chunks, f.world)

  abbrev pub fetch_missing : List String → W → List Callback × W
  fetch_missing [] w = ([], w)
  fetch_missing (id ∷ ids) w =
      let params = apply_params_override c.market_params_normalize (no_params (id ∷ ids)) in
      noted_chunks (
        fetch_markets fetch_page done
          (new_chunks_fetcher (missing_chunk_size params) (request_delay_ms c)) params w)

  -- `fetchMissingExtraIds`, with one order of the tiers for all ids; the update only logs its error, and its tokens go to the callback.
  unfoldable pub fetch_missing_extra_ids : ℕ → Updater F → W → List Callback × W
  unfolding find_missing_or_stale_ids
  fetch_missing_extra_ids now u w =
      fetch_missing
        (find_missing_or_stale_ids (pos (pos_part (markets_ttl c) / 2)) now u.extra_ids
          (λ id. u.tiers))
        w

  abbrev pub each_page : MarketTier → List PageData → List Callback
  each_page tier [] = []
  each_page tier (p ∷ pages) = on_update_tier_pages tier (p ∷ []) ∷ each_page tier pages

  abbrev pub completed : Bool → List Callback
  completed true = on_initial_load_completed ∷ []
  completed false = []

  abbrev pub with_missing : MarketTier → ℕ → Updater F → W → List Callback × W
  with_missing tier now u w =
      if tier.fetch_coinslist_ids then fetch_missing_extra_ids now u w else ([], w)

  abbrev pub stored : String → ℕ → List PageData → Updater F → Updater F
  stored name now pages u = record u {
    tiers =
        store_tier name now
          (convert_markets_response zero_float truncate unmarshal (items_of pages)) u.tiers;
  }

  -- After a panic, which is recovered from, the update returns no error.
  abbrev pub after_pages :
      MarketTier
      → ℕ
      → Updater F
      → W
      → Option (Result (List PageData) × Paged W)
      → Option Error × Updater F × List Callback × W
  after_pages tier now u w none = (none, u, [], w)
  after_pages tier now u w (some (err e, s)) = (some e, u, each_page tier s.pages, s.world)
  after_pages tier now u w (some (ok pages, s)) =
      let u' = stored tier.name now pages u in
      let (calls, w') = with_missing tier now u' s.world in
      let (load, all_done) =
        check_and_trigger_initial_load_completed c.tiers tier.name u'.initial_load in
      (
        none,
        record u' { initial_load = load },
        each_page tier s.pages ++ calls ++ on_update_tier_pages tier pages ∷ completed all_done,
        w',
      )

  abbrev pub marked : String → Option ℕ → Updater F → Updater F
  marked name start_time u = record u { tiers = set_tier_update_start_time name start_time u.tiers }

  abbrev pub ended :
      MarketTier
      → Option Error × Updater F × List Callback × W
      → Option Error × Updater F × List Callback × W
  ended tier (e, u, calls, w) = (e, marked tier.name none u, calls, w)

  -- `fetchAndUpdateTier`, from its start at `began` to the success at `now`.
  unfoldable pub fetch_and_update_tier :
      MarketTier → ℕ → ℕ → Updater F → W → Option Error × Updater F × List Callback × W
  unfolding fetch_missing_extra_ids
  fetch_and_update_tier tier began now u w =
      ended tier (after_pages tier now (marked tier.name (some began) u) w (tier_pages tier w))
