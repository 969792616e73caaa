-- ===== src/Cache.antt =====
-- cache/gocache.go and cache/service.go: the cache that every service keeps its data in.
--
-- The store is patrickmn/go-cache, a parameter: a record of its operations. A time is a number of
-- nanoseconds, and the operations of one call see one time. The service is built with a store, so
-- that the tests for a missing one have no counterpart.
pub mod Laws
pub mod Counting
pub mod Loading
pub mod Again
pub mod MapStore
mod Examples
use market_proxy.Prelude.{
  ℕ, String, Bool, true, false, Option, none, some, List, [], ◌∷◌, ◌++◌, string_eq, if◌then◌else◌,
}
use market_proxy.Prelude.Int.{ℤ}
use market_proxy.Prelude.Maps.{Map, lookup, insert, merge}
use market_proxy.Prelude.Errors.{Error, wrapped, Result, ok, err}

-- What a store may hold: an `interface{}`, which is a `[]byte` or is not.
pub data Item : Type 0 where
  bytes : String → Item
  other : Item

-- `cache.Cache` of go-cache, with the time of the call where it matters.
pub record Store : Type 1 where
  pub State : Type 0
  pub get : State → ℕ → String → Option Item
  pub set : State → ℕ → String → Item → ℤ → State
  pub delete : State → String → State
  pub flush : State → State

pub record GetResult : Type 0 where
  pub found : Map String String
  pub missing_keys : List String

-- The body of the loop of `Get`.
abbrev pub note_item : String → Option Item → GetResult → GetResult
note_item key (some (bytes data_)) r = record r { found = insert key data_ r.found }
note_item key (some other) r = record r { missing_keys = r.missing_keys ++ key ∷ [] }
note_item key none r = record r { missing_keys = r.missing_keys ++ key ∷ [] }

abbrev pub load_failed : Error → Error
load_failed e = wrapped "failed to load data" e

-- `prepareFinalResult`
unfoldable pub only_keys : List String → Map String String → Map String String → Map String String
only_keys [] cached_data result = result
only_keys (key ∷ keys) cached_data result = elim (lookup key cached_data) [
  | some value ↦ only_keys keys cached_data (insert key value result)
  | none ↦ only_keys keys cached_data result
]

unfoldable pub prepare_final_result : List String → Map String String → Bool → Map String String
unfolding only_keys
prepare_final_result original_keys cached_data load_only_missing_keys =
    if load_only_missing_keys then cached_data else only_keys original_keys cached_data []

unfoldable pub determine_keys_to_load : List String → List String → Bool → List String
determine_keys_to_load original_keys missing_keys load_only_missing_keys =
    if load_only_missing_keys then missing_keys else original_keys

module _ (store : Store) where
  unfoldable pub get_each : store.State → ℕ → List String → GetResult → GetResult
  get_each s now [] r = r
  get_each s now (key ∷ keys) r = get_each s now keys (note_item key (store.get s now key) r)

  -- `GoCache.Get`
  unfoldable pub get : store.State → ℕ → List String → GetResult
  unfolding get_each
  get s now keys = get_each s now keys (record { found = []; missing_keys = [] })

  -- `GoCache.Set`
  unfoldable pub set : store.State → ℕ → Map String String → ℤ → store.State
  set s now [] timeout = s
  set s now ((key, value) ∷ entries) timeout =
      set (store.set s now key (bytes value) timeout) now entries timeout

  -- `GoCache.Delete`
  unfoldable pub delete : store.State → List String → store.State
  delete s [] = s
  delete s (key ∷ keys) = delete (store.delete s key) keys

  -- `GoCache.Clear`, and `Stop` of the service.
  unfoldable pub clear : store.State → store.State
  clear s = store.flush s

  -- A `LoaderFunc` passes on a state `L`: the calls that it makes.
  module _ {L : Type 0} (loader : L → List String → Result (Map String String) × L) where
    abbrev pub cache_loaded :
        store.State
        → ℕ
        → ℤ
        → Result (Map String String) × L
        → Result (Map String String) × store.State × L
    cache_loaded s now ttl (err e, l) = (err (load_failed e), s, l)
    cache_loaded s now ttl (ok loaded, l) = (ok loaded, set s now loaded ttl, l)

    unfoldable pub load_and_cache_local :
        store.State → ℕ → L → List String → ℤ → Result (Map String String) × store.State × L
    load_and_cache_local s now l keys_to_load ttl = cache_loaded s now ttl (loader l keys_to_load)

    abbrev pub finish :
        List String
        → Bool
        → Map String String
        → Result (Map String String) × store.State × L
        → Result (Map String String) × store.State × L
    finish keys only result (err e, s, l) = (err e, s, l)
    finish keys only result (ok loaded, s, l) =
        (ok (prepare_final_result keys (merge result loaded) only), s, l)

    abbrev pub load_missing :
        store.State
        → ℕ
        → L
        → List String
        → Bool
        → ℤ
        → Map String String
        → List String
        → Result (Map String String) × store.State × L
    load_missing s now l keys only ttl found [] = (ok (prepare_final_result keys found only), s, l)
    load_missing s now l keys only ttl found (k ∷ ks) =
        finish keys only found
          (load_and_cache_local s now l (determine_keys_to_load keys (k ∷ ks) only) ttl)

    -- `GetOrLoad`
    unfoldable pub get_or_load :
        store.State → ℕ → L → List String → Bool → ℤ → Result (Map String String) × store.State × L
    get_or_load s now l [] only ttl = (ok [], s, l)
    get_or_load s now l (key ∷ keys) only ttl =
        let r = get s now (key ∷ keys) in
        load_missing s now l (key ∷ keys) only ttl r.found r.missing_keys
