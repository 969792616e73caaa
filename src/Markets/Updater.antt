-- ===== src/Markets/Updater.antt =====
-- coingecko_markets/periodic_updater.go: when the tiers are fetched, and when the first load is over.
--
-- A time is a number of nanoseconds. What the check starts in goroutines is a list of actions; each
-- of them takes the lock of the cache for itself later, as a step of its own. Coins are a type `C`.
-- The product of three intervals stays within an int64 for intervals of less than 97 years.
use market_proxy.Prelude.{
  ℕ, ◌*◌, ◌^◌, ◌-◌, String, Bool, true, false, ◌&&◌, not, Option, none, some, List, [], ◌∷◌, ◌++◌,
  ◌==◌, nat_eq, string_eq, if◌then◌else◌, length, map,
}
use market_proxy.Prelude.Int.{ℤ, pos, ltb_ℤ, leb_ℤ, ◌-ℤ◌, ◌*ℤ◌}
use market_proxy.Prelude.Maps.{Map, lookup, insert}
use market_proxy.Prelude.Sets.{is_in}
use market_proxy.Config.Markets.{MarketTier, MarketsFetcherConfig, markets_ttl}
pub mod Update
pub mod Kept
pub mod Schedule
pub mod FirstLoad
pub mod Waiting

-- A zero `Timestamp` and a nil `UpdateStartTime` are `none`.
pub record TierDataWithTimestamp (C : Type 0) : Type 0 where
  pub coins : List C
  pub timestamp : Option ℕ
  pub update_start_time : Option ℕ

-- `now.Sub(t)`; of the zero time it is the greatest duration.
abbrev pub max_duration : ℤ
max_duration = pos (2 ^ 63 - 1)

abbrev pub since : ℕ → Option ℕ → ℤ
since now none = max_duration
since now (some t) = pos now -ℤ pos t

abbrev pub ten_minutes : ℤ
ten_minutes = pos 600_000_000_000

unfoldable pub max_update_duration : MarketTier → ℤ
max_update_duration tier =
    if ltb_ℤ ten_minutes (tier.update_interval *ℤ pos 3)
    then tier.update_interval *ℤ pos 3
    else ten_minutes

-- What the check of one tier starts in goroutines.
pub data Action : Type 0 where
  reset_start : String → Action
  fetch : MarketTier → Action

-- An update that runs: is it taken for stuck?
unfoldable pub is_stuck : ℕ → MarketTier → Option ℕ → Bool
is_stuck now tier none = false
is_stuck now tier (some t) = ltb_ℤ (max_update_duration tier) (pos now -ℤ pos t)

abbrev is_set : Option ℕ → Bool
is_set none = false
is_set (some t) = true

module _ {C : Type 0} where
  unfoldable pub is_due : ℕ → MarketTier → TierDataWithTimestamp C → Bool
  unfolding is_stuck
  is_due now tier d =
      let is_updating = is_set d.update_start_time && not (is_stuck now tier d.update_start_time) in
      not is_updating && leb_ℤ tier.update_interval (since now d.timestamp)

  unfoldable pub check_tier_data : ℕ → MarketTier → Option (TierDataWithTimestamp C) → List Action
  unfolding is_due
  check_tier_data now tier none = fetch tier ∷ []
  check_tier_data now tier (some d) =
      let fetches = if is_due now tier d then fetch tier ∷ [] else [] in
      if is_stuck now tier d.update_start_time then reset_start tier.name ∷ fetches else fetches

  -- `checkAndUpdateTiers`
  unfoldable pub check_and_update_tiers :
      ℕ → List MarketTier → Map String (TierDataWithTimestamp C) → List Action
  check_and_update_tiers now [] tiers = []
  check_and_update_tiers now (tier ∷ rest) tiers =
      check_tier_data now tier (lookup tier.name tiers) ++ check_and_update_tiers now rest tiers

  abbrev started : Option ℕ → Option (TierDataWithTimestamp C) → TierDataWithTimestamp C
  started start_time none = record { coins = []; timestamp = none; update_start_time = start_time }
  started start_time (some d) = record d { update_start_time = start_time }

  unfoldable pub set_tier_update_start_time :
      String
      → Option ℕ
      → Map String (TierDataWithTimestamp C)
      → Map String (TierDataWithTimestamp C)
  set_tier_update_start_time name start_time tiers =
      insert name (started start_time (lookup name tiers)) tiers

  -- The cache writes of `fetchAndUpdateTier`: at the start, after a successful fetch, at the end.
  unfoldable pub store_tier :
      String
      → ℕ
      → List C
      → Map String (TierDataWithTimestamp C)
      → Map String (TierDataWithTimestamp C)
  store_tier name now coins tiers =
      insert name (record { coins = coins; timestamp = some now; update_start_time = none }) tiers

pub record InitialLoad : Type 0 where
  pub completed_tiers : List String
  pub all_completed : Bool

abbrev pub add_completed : String → List String → List String
add_completed name done = if is_in name done then done else done ++ name ∷ []

abbrev pub all_in : List MarketTier → List String → Bool
all_in [] done = true
all_in (tier ∷ tiers) done = is_in tier.name done && all_in tiers done

-- `checkAndTriggerInitialLoadCompleted`; the second result says whether the callback is started.
unfoldable pub check_and_trigger_initial_load_completed :
    List MarketTier → String → InitialLoad → InitialLoad × Bool
check_and_trigger_initial_load_completed tiers name s =
    let done = add_completed name s.completed_tiers in
    if not s.all_completed && (length done == length tiers && all_in tiers done)
    then (record { completed_tiers = done; all_completed = true }, true)
    else (record { completed_tiers = done; all_completed = s.all_completed }, false)
