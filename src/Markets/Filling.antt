-- ===== src/Markets/Filling.antt =====
-- coingecko_markets/service.go and cache_utils.go: what the updater hands over goes into the cache
-- and into the ranking.
--
-- `unmarshal` is `json.Unmarshal`; `marshal` is `json.Marshal` of a list of tokens, and `marshal_ids`
-- that of a list of ids.
pub mod Parsed
pub mod Served
use market_proxy.Prelude.{ℕ, String, Bool, Option, none, some, List, [], ◌∷◌, string_eq}
use market_proxy.Prelude.Int.{ℤ}
use market_proxy.Prelude.Maps.{Map, insert}
use market_proxy.Prelude.Errors.{Error, wrapped, Result, ok, err}
use market_proxy.Json.{Json}
use market_proxy.Cache.{Store, set}
use market_proxy.Config.Markets.{MarketsFetcherConfig, markets_ttl}
use market_proxy.Events.{SubscriptionManager, Outcome, emitted}
use market_proxy.Markets.Data.{PageData, id_of_bytes, extract_token_ids}
use market_proxy.Markets.Keys.{get_cache_key, create_page_cache_key, create_page_ids_cache_key}
use market_proxy.Markets.TopIds.{TopIdsManager, update_pages_from_page_data, clear}

module _ {F : Type 0} (unmarshal : String → Option (Json F)) where
  abbrev pub put_token : Option String → String → Map String String → Map String String
  put_token none token_bytes cache_data = cache_data
  put_token (some token_id) token_bytes cache_data =
      insert (get_cache_key token_id) token_bytes cache_data

  -- `cacheData` of `parseTokensData`: tokens without an id are skipped.
  unfoldable pub parse_tokens_data : List String → Map String String → Map String String
  parse_tokens_data [] cache_data = cache_data
  parse_tokens_data (token_bytes ∷ rest) cache_data =
      parse_tokens_data rest (put_token (id_of_bytes unmarshal token_bytes) token_bytes cache_data)

module _ {F : Type 0} (unmarshal : String → Option (Json F))
    (marshal marshal_ids : List String → Result String) where
  abbrev pub put_ids : ℤ → Result String → Map String String → Map String String
  put_ids page (err e) cache_data = cache_data
  put_ids page (ok ids_bytes) cache_data =
      insert (create_page_ids_cache_key page) ids_bytes cache_data

  abbrev pub put_page_ids : ℤ → List String → Map String String → Map String String
  put_page_ids page [] cache_data = cache_data
  put_page_ids page (id ∷ ids) cache_data = put_ids page (marshal_ids (id ∷ ids)) cache_data

  -- `cacheData` of `parsePagesData`.
  unfoldable pub parse_pages_data : List PageData → Map String String → Result (Map String String)
  parse_pages_data [] cache_data = ok cache_data
  parse_pages_data (p ∷ pages) cache_data = elim (marshal p.items) [
    | err e ↦ err (wrapped "failed to marshal page data" e)
    | ok page_bytes ↦ parse_pages_data pages (
        put_page_ids p.page (extract_token_ids unmarshal p.items)
          (insert (create_page_cache_key p.page) page_bytes cache_data))
  ]

-- The part of `Service` that changes.
pub record Service (store : Store) : Type 0 where
  pub cache : store.State
  pub top_ids_manager : TopIdsManager
  pub subscription_manager : Outcome SubscriptionManager

module _ (store : Store) (c : MarketsFetcherConfig) {F : Type 0}
    (unmarshal : String → Option (Json F)) where
  abbrev pub set_some : store.State → ℕ → Map String String → store.State
  set_some s now [] = s
  set_some s now (entry ∷ entries) = set store s now (entry ∷ entries) (markets_ttl c)

  -- `cacheTokensByID`
  unfoldable pub cache_tokens_by_id : store.State → ℕ → List String → store.State
  unfolding parse_tokens_data
  cache_tokens_by_id s now tokens_data = set_some s now (parse_tokens_data unmarshal tokens_data [])

  -- The loop over the pages.
  unfoldable pub cache_each_page : store.State → ℕ → List PageData → store.State
  unfolding cache_tokens_by_id
  cache_each_page s now [] = s
  cache_each_page s now (p ∷ pages) = cache_each_page (cache_tokens_by_id s now p.items) now pages

  module _ (marshal marshal_ids : List String → Result String) where
    abbrev pub set_parsed : store.State → ℕ → Result (Map String String) → store.State
    set_parsed s now (err e) = s
    set_parsed s now (ok cache_data) = set_some s now cache_data

    -- `cacheTokensPage`; its error is logged.
    unfoldable pub cache_tokens_page : store.State → ℕ → List PageData → store.State
    unfolding parse_pages_data
    cache_tokens_page s now pages =
        set_parsed s now (parse_pages_data unmarshal marshal marshal_ids pages [])

    -- `handleTierPagesUpdate`
    unfoldable pub handle_tier_pages_update :
        (ℕ → Bool) → List PageData → ℕ → Service store → Service store
    unfolding cache_each_page cache_tokens_page
    handle_tier_pages_update quits pages now s = record {
      cache = cache_tokens_page (cache_each_page s.cache now pages) now pages;
      top_ids_manager = update_pages_from_page_data unmarshal pages s.top_ids_manager;
      subscription_manager = emitted quits s.subscription_manager;
    }

    -- `handleMissingExtraIdsUpdate`
    unfoldable pub handle_missing_extra_ids_update :
        (ℕ → Bool) → List String → ℕ → Service store → Service store
    handle_missing_extra_ids_update quits tokens_data now s = record s {
      cache = cache_tokens_by_id s.cache now tokens_data;
      subscription_manager = emitted quits s.subscription_manager;
    }
