-- ===== src/Prices/Updater.antt =====
-- coingecko_prices/periodic_updater.go: the prices of the top tokens, tier by tier.
--
-- A time is a number of nanoseconds. What a check starts in goroutines is a list of actions, as in
-- the updater of the markets. A panic inside an update is recovered from, and ends it.
pub mod Update
pub mod Range
pub mod Stale
use market_proxy.Prelude.{
  ℕ, ◌+◌, ◌-◌, ◌/◌, String, Bool, true, false, ◌&&◌, not, Option, none, some, List, [], ◌∷◌, ◌++◌,
  ◌==◌, nat_eq, string_eq, if◌then◌else◌, length, take, drop,
}
use market_proxy.Prelude.Int.{ℤ, pos, negsuc, pos_part, neg_part, ltb_ℤ, leb_ℤ, ◌-ℤ◌, ◌+ℤ◌, ◌*ℤ◌}
use market_proxy.Prelude.Maps.{Map, lookup, insert, merge}
use market_proxy.Prelude.Errors.{Error, wrapped, Result, ok, err}
use market_proxy.Config.Prices.{PriceTier, PricesFetcherConfig, prices_ttl, validate_prices}
use market_proxy.Markets.Updater.{since, ten_minutes}
use market_proxy.Prices.Data.{PriceParams, all_fields, get_config_currencies}
use market_proxy.Prices.Chunks.{
  ChunksFetcher, Fetching, new_chunks_fetcher, default_chunk_size, default_request_delay,
  fetch_prices,
}

-- The field `Data` of the source is `prices`.
pub record TierDataWithTimestamp : Type 0 where
  pub prices : Map String String
  pub timestamp : Option ℕ
  pub update_start_time : Option ℕ

-- `cache.tiers`, `topMarketIds.ids` and `extraIds.ids`, which have a lock each.
pub record Updater : Type 0 where
  pub tiers : Map String TierDataWithTimestamp
  pub top_market_ids : List String
  pub extra_ids : List String

unfoldable pub new_periodic_updater : Updater
new_periodic_updater = record { tiers = []; top_market_ids = []; extra_ids = [] }

unfoldable pub set_top_market_ids : List String → Updater → Updater
set_top_market_ids ids u = record u { top_market_ids = ids }

unfoldable pub set_extra_ids : List String → Updater → Updater
set_extra_ids ids u = record u { extra_ids = ids }

-- `GetCacheData`: the prices of all tiers, the later tiers over the earlier ones.
unfoldable pub all_prices : Map String TierDataWithTimestamp → Map String String → Map String String
all_prices [] all_data = all_data
all_prices ((name, d) ∷ tiers) all_data = all_prices tiers (merge all_data d.prices)

unfoldable pub get_cache_data : Updater → Map String String
unfolding all_prices
get_cache_data u = all_prices u.tiers []

abbrev prices_in : Option TierDataWithTimestamp → Option (Map String String)
prices_in none = none
prices_in (some d) = some d.prices

unfoldable pub get_cache_data_for_tier : String → Updater → Option (Map String String)
get_cache_data_for_tier tier_name u = prices_in (lookup tier_name u.tiers)

-- `Healthy`; the client is healthy, or there is none.
unfoldable pub healthy : Option Bool → Updater → Bool
unfolding get_cache_data
healthy client u = elim (get_cache_data u) [
  | p ∷ ps ↦ true
  | [] ↦ elim client [ none ↦ false | some h ↦ h ]
]

-- `Start`: the error of the validation, or the scheduler starts.
abbrev invalid : Option Error → Option Error
invalid none = none
invalid (some e) = some (wrapped "invalid configuration" e)

unfoldable pub start : PricesFetcherConfig → Option Error
start c = invalid (validate_prices c)

unfoldable pub max_update_duration : PriceTier → ℤ
max_update_duration tier =
    if ltb_ℤ ten_minutes (tier.update_interval *ℤ pos 3)
    then tier.update_interval *ℤ pos 3
    else ten_minutes

pub data Action : Type 0 where
  reset_start : String → Action
  fetch : PriceTier → Action

unfoldable pub is_stuck : ℕ → PriceTier → Option ℕ → Bool
unfolding max_update_duration
is_stuck now tier none = false
is_stuck now tier (some t) = ltb_ℤ (max_update_duration tier) (pos now -ℤ pos t)

abbrev pub is_set : Option ℕ → Bool
is_set none = false
is_set (some t) = true

unfoldable pub is_updating : ℕ → PriceTier → TierDataWithTimestamp → Bool
unfolding is_stuck
is_updating now tier d = is_set d.update_start_time && not (is_stuck now tier d.update_start_time)

unfoldable pub should_update : Bool → ℕ → PriceTier → TierDataWithTimestamp → Bool
unfolding is_updating
should_update force now tier d =
    if force
    then not (is_updating now tier d)
    else not (is_updating now tier d) && leb_ℤ tier.update_interval (since now d.timestamp)

unfoldable pub check_tier_data : Bool → ℕ → PriceTier → Option TierDataWithTimestamp → List Action
unfolding should_update is_stuck
check_tier_data force now tier none = fetch tier ∷ []
check_tier_data force now tier (some d) =
    let fetches = if should_update force now tier d then fetch tier ∷ [] else [] in
    if is_stuck now tier d.update_start_time then reset_start tier.name ∷ fetches else fetches

-- The loop over the tiers.
unfoldable pub check_each :
    Bool → ℕ → List PriceTier → Map String TierDataWithTimestamp → List Action
unfolding check_tier_data
check_each force now [] tiers = []
check_each force now (tier ∷ rest) tiers =
    check_tier_data force now tier (lookup tier.name tiers) ++ check_each force now rest tiers

-- `checkAndUpdateTiers`, and `ForceUpdate` with `force`.
unfoldable pub check_and_update_tiers : Bool → ℕ → List PriceTier → Updater → List Action
unfolding check_each
check_and_update_tiers force now tiers u =
    if length u.top_market_ids == 0 && not force then [] else check_each force now tiers u.tiers

-- `setTierUpdateStartTime`
abbrev started : Option ℕ → Option TierDataWithTimestamp → TierDataWithTimestamp
started start_time none = record { prices = []; timestamp = none; update_start_time = start_time }
started start_time (some d) = record d { update_start_time = start_time }

unfoldable pub set_tier_update_start_time : String → Option ℕ → Updater → Updater
set_tier_update_start_time name start_time u = record u {
  tiers = insert name (started start_time (lookup name u.tiers)) u.tiers;
}
