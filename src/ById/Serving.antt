-- ===== src/ById/Serving.antt =====
-- fetcher_by_id/service.go: items from the updater into the cache, and from there to clients.
pub mod Served
use market_proxy.Prelude.{
  ℕ, String, Bool, Option, none, some, List, [], ◌∷◌, ◌++◌, string_eq, map, if◌then◌else◌,
}
use market_proxy.Prelude.Maps.{Map, lookup, insert}
use market_proxy.Prelude.Errors.{Error, msg, Result, ok, err}
use market_proxy.Cache.{Store, get, set}
use market_proxy.Config.FetcherById.{FetcherByIdConfig, build_cache_key, get_ttl}
use market_proxy.Events.{SubscriptionManager, Outcome, emitted}
use market_proxy.Markets.Reading.{CacheStatus, full, partial, miss}

-- The part of `Service` that changes.
pub record Service (store : Store) : Type 0 where
  pub cache : store.State
  pub subscription_manager : Outcome SubscriptionManager

-- The loop over the items.
unfoldable pub by_cache_key :
    FetcherByIdConfig → Map String String → Map String String → Map String String
by_cache_key c [] cache_data = cache_data
by_cache_key c ((id, raw_data) ∷ data_) cache_data =
    by_cache_key c data_ (insert (build_cache_key c id) raw_data cache_data)

-- `keyToID`
unfoldable pub key_to_id : FetcherByIdConfig → List String → Map String String → Map String String
key_to_id c [] m = m
key_to_id c (id ∷ ids) m = key_to_id c ids (insert (build_cache_key c id) id m)

-- An entry that is missing in a Go map is the empty string.
abbrev pub id_or_empty : Option String → String
id_or_empty none = ""
id_or_empty (some id) = id

unfoldable pub found_by_id :
    Map String String → Map String String → Map String String → Map String String
found_by_id ids [] result = result
found_by_id ids ((cache_key, data_) ∷ cached_data) result =
    found_by_id ids cached_data (insert (id_or_empty (lookup cache_key ids)) data_ result)

abbrev pub put_missing : Option String → List String → List String
put_missing none rest = rest
put_missing (some id) rest = id ∷ rest

unfoldable pub missing_ids : Map String String → List String → List String
missing_ids ids [] = []
missing_ids ids (cache_key ∷ missing_keys) =
    put_missing (lookup cache_key ids) (missing_ids ids missing_keys)

abbrev pub status_by : List String → Map String String → CacheStatus
status_by [] result = full
status_by (id ∷ missing) [] = miss
status_by (id ∷ missing) (entry ∷ result) = partial

module _ (store : Store) (c : FetcherByIdConfig) where
  -- `cacheByID`
  unfoldable pub cache_by_id : store.State → ℕ → Map String String → store.State
  unfolding by_cache_key
  cache_by_id s now [] = s
  cache_by_id s now (item ∷ items) = set store s now (by_cache_key c (item ∷ items) []) (get_ttl c)

  -- `onDataUpdated`; the cache has no error to return.
  unfoldable pub on_data_updated :
      (ℕ → Bool) → Map String String → ℕ → Service store → Service store
  unfolding cache_by_id
  on_data_updated quits data_ now s = record {
    cache = cache_by_id s.cache now data_;
    subscription_manager = emitted quits s.subscription_manager;
  }

  abbrev pub not_found : String → Result String × CacheStatus
  not_found id = (err (msg "item not found"), miss)

  abbrev pub item_of : String → List String → Option String → Result String × CacheStatus
  item_of id (key ∷ keys) o = not_found id
  item_of id [] none = not_found id
  item_of id [] (some data_) = (ok data_, full)

  -- `GetByID`
  unfoldable pub get_by_id : store.State → ℕ → String → Result String × CacheStatus
  get_by_id s now id =
      let cache_key = build_cache_key c id in
      let r = get store s now (cache_key ∷ []) in
      item_of id r.missing_keys (lookup cache_key r.found)

  abbrev pub multiple :
      List String → store.State → ℕ → Map String String × List String × CacheStatus
  multiple [] s now = ([], [], full)
  multiple (id ∷ ids) s now =
      let names = key_to_id c (id ∷ ids) [] in
      let r = get store s now (map (build_cache_key c) (id ∷ ids)) in
      let result = found_by_id names r.found [] in
      let missing = missing_ids names r.missing_keys in (result, missing, status_by missing result)

  -- `GetMultiple`
  unfoldable pub get_multiple :
      store.State → ℕ → List String → Map String String × List String × CacheStatus
  unfolding key_to_id found_by_id missing_ids
  get_multiple s now ids = multiple ids s now
