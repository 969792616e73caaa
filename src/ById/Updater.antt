-- ===== src/ById/Updater.antt =====
-- fetcher_by_id/periodic_updater.go: which tiers are fetched. A provider of ids is a parameter.
pub mod Update
use market_proxy.Prelude.{
  ℕ, ◌+◌, String, Bool, true, false, ◌&&◌, not, Option, none, some, List, [], ◌∷◌, ◌++◌, string_eq,
  if◌then◌else◌, length, take, drop,
}
use market_proxy.Prelude.Int.{ℤ, pos, pos_part, ltb_ℤ, leb_ℤ, ◌-ℤ◌, ◌*ℤ◌}
use market_proxy.Prelude.Maps.{Map, lookup, insert, merge}
use market_proxy.Prelude.Errors.{Error, msg, wrapped, Result, ok, err}
use market_proxy.Config.FetcherById.{
  GenericTier, FetcherByIdConfig, get_chunk_size, is_batch_mode, validate_fetcher,
}
use market_proxy.Markets.Updater.{since}
use market_proxy.ById.{
  ChunksFetcher, Fetching, new_chunks_fetcher, chunks_default_request_delay, fetch_data,
}

-- The zero time of `LastUpdate` is none.
pub record TierState : Type 0 where
  pub last_update : Option ℕ
  pub update_start_time : Option ℕ
  pub is_updating : Bool

abbrev pub zero_state : TierState
zero_state = record { last_update = none; update_start_time = none; is_updating = false }

-- The part of `PeriodicUpdater` that changes.
pub record Updater : Type 0 where
  pub tier_states : Map String TierState
  pub initialized : Bool

unfoldable pub zero_states : List GenericTier → Map String TierState → Map String TierState
zero_states [] states = states
zero_states (t ∷ tiers) states = zero_states tiers (insert t.name zero_state states)

unfoldable pub new_periodic_updater : FetcherByIdConfig → Updater
unfolding zero_states
new_periodic_updater c = record { tier_states = zero_states c.tiers []; initialized = false }

abbrev pub fetcher_of : FetcherByIdConfig → ChunksFetcher
fetcher_of c = new_chunks_fetcher (get_chunk_size c) chunks_default_request_delay (is_batch_mode c)

abbrev invalid : Option Error → Option Error
invalid none = none
invalid (some e) = some (wrapped "invalid configuration" e)

-- `Start`: the error of the validation, or the scheduler starts.
unfoldable pub start : FetcherByIdConfig → Option Error
start c = invalid (validate_fetcher c)

abbrev pub state_or_zero : Option TierState → TierState
state_or_zero none = zero_state
state_or_zero (some s) = s

-- `setTierUpdating`; none is false, and a time true.
unfoldable pub set_tier_updating : String → Option ℕ → Updater → Updater
set_tier_updating name none u = record u {
  tier_states =
      insert name
        (record (state_or_zero (lookup name u.tier_states)) {
          is_updating = false;
          update_start_time = none;
        })
        u.tier_states;
}
set_tier_updating name (some now) u = record u {
  tier_states =
      insert name
        (record (state_or_zero (lookup name u.tier_states)) {
          is_updating = true;
          update_start_time = some now;
        })
        u.tier_states;
}

abbrev pub max_update_duration : GenericTier → ℤ
max_update_duration tier =
    let ten_minutes = pos 600_000_000_000 in
    if ltb_ℤ ten_minutes (tier.update_interval *ℤ pos 3)
    then tier.update_interval *ℤ pos 3
    else ten_minutes

abbrev pub is_stuck : ℕ → GenericTier → Option ℕ → Bool
is_stuck now tier none = false
is_stuck now tier (some began) = ltb_ℤ (max_update_duration tier) (pos now -ℤ pos began)

-- What a check starts in goroutines.
pub data Action : Type 0 where
  reset fetch : GenericTier → Action

abbrev pub when : Bool → Action → List Action
when true a = a ∷ []
when false a = []

-- The body of the loop. An interval of an update that never was is as long as `since` says.
unfoldable pub check_tier : Bool → ℕ → GenericTier → TierState → List Action
check_tier force now tier s =
    let stuck = s.is_updating && is_stuck now tier s.update_start_time in
    let is_updating = s.is_updating && not stuck in
    let due = if force then true else leb_ℤ tier.update_interval (since now s.last_update) in
    when stuck (reset tier) ++ when (not is_updating && due) (fetch tier)

-- The loop, which also adds the states of tiers that have none.
unfoldable pub check_each :
    Bool → ℕ → List GenericTier → Map String TierState → List Action × Map String TierState
unfolding check_tier
check_each force now [] states = ([], states)
check_each force now (tier ∷ tiers) states =
    let s = state_or_zero (lookup tier.name states) in
    let (actions, states') = check_each force now tiers (insert tier.name s states) in
    (check_tier force now tier s ++ actions, states')

abbrev pub check_ids :
    Bool → ℕ → List GenericTier → Updater → Result (List String) → List Action × Updater
check_ids force now tiers u (err e) = ([], u)
check_ids false now tiers u (ok []) = ([], u)
check_ids true now tiers u (ok []) =
    let (actions, states) = check_each true now tiers u.tier_states in
    (actions, record u { tier_states = states })
check_ids force now tiers u (ok (id ∷ ids)) =
    let (actions, states) = check_each force now tiers u.tier_states in
    (actions, record u { tier_states = states })

abbrev no_provider : Result (List String)
no_provider = err (msg "IDs provider not set")

-- `getAllIds`, for what the provider answers, if it is set.
abbrev pub get_all_ids : Option (Result (List String)) → Result (List String)
get_all_ids none = no_provider
get_all_ids (some ids) = ids

-- `checkAndUpdateTiers`
unfoldable pub check_and_update_tiers :
    Bool → ℕ → FetcherByIdConfig → Option (Result (List String)) → Updater → List Action × Updater
unfolding check_each
check_and_update_tiers force now c provided u = check_ids force now c.tiers u (get_all_ids provided)
