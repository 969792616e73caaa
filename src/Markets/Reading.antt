-- ===== src/Markets/Reading.antt =====
-- coingecko_markets/service.go: what clients read. It comes from the cache alone.
--
-- `cache_get` is `Get` of the cache. `unmarshal` decodes a token, and `unmarshal_page` a page, a
-- list of tokens. A range of pages is built up from its length, which is the fuel of the loops.
pub mod Status
use market_proxy.Prelude.{
  ℕ, zero, suc, ◌+◌, ◌/◌, String, Bool, true, false, ◌&&◌, ◌||◌, not, Option, none, some, List, [],
  ◌∷◌, ◌++◌, ltb, ◌==◌, nat_eq, string_eq, if◌then◌else◌, length, take,
}
use market_proxy.Prelude.Int.{
  ℤ, pos, negsuc, pos_part, neg_part, ltb_ℤ, leb_ℤ, ◌+ℤ◌, ◌-ℤ◌, ◌*ℤ◌, int_eq,
}
use market_proxy.Prelude.Maps.{Map, lookup}
use market_proxy.Prelude.Errors.{Error, msg, wrapped, Result, ok, err}
use market_proxy.Cache.{GetResult}
use market_proxy.Config.Markets.{MarketParamsNormalize, MarketTier, MarketsFetcherConfig}
use market_proxy.Markets.Params.{MarketsParams, apply_params_override}
use market_proxy.Markets.TopIds.{TopIdsManager, get_top_ids}
use market_proxy.Markets.Keys.{create_cache_keys, create_page_cache_key}

-- interfaces/cache_status.go
pub data CacheStatus : Type 0 where
  full partial miss : CacheStatus

unfoldable pub status_of : List String → GetResult → CacheStatus
status_of keys r =
    if length r.missing_keys == 0 && length r.found == length keys
    then full
    else if ltb 0 (length r.found)
    then partial
    else miss

abbrev pub markets_default_chunk_size : ℤ
markets_default_chunk_size = pos 250

abbrev xor : Bool → Bool → Bool
xor true b = not b
xor false b = b

abbrev pub append_some : {J : Type 0} → Option J → List J → List J
append_some none rest = rest
append_some (some j) rest = j ∷ rest

module _ {J : Type 0} (unmarshal : String → Option J) where
  abbrev pub decoded : Option String → Option J
  decoded none = none
  decoded (some token_bytes) = unmarshal token_bytes

  -- The loop of `MarketsByIds` over the keys.
  unfoldable pub in_order : List String → Map String String → List J
  in_order [] found = []
  in_order (key ∷ keys) found = append_some (decoded (lookup key found)) (in_order keys found)

  unfoldable pub decode_all : List String → List J
  decode_all [] = []
  decode_all (token_bytes ∷ rest) = append_some (unmarshal token_bytes) (decode_all rest)

module _ {J : Type 0} (unmarshal : String → Option J)
    (unmarshal_page : String → Option (List String)) (cache_get : List String → Result GetResult)
    (cfg : MarketsFetcherConfig) where
  abbrev Answer : Type 0
  Answer = Result (List J) × CacheStatus

  abbrev pub after_get : String → (GetResult → Answer) → Result GetResult → Answer
  after_get what go_on (err e) = (err (wrapped what e), miss)
  after_get what go_on (ok r) = go_on r

  -- `MarketsByIds`
  unfoldable pub markets_by_ids : MarketsParams → Answer
  markets_by_ids params =
      let keys = create_cache_keys (apply_params_override cfg.market_params_normalize params) in
      after_get "failed to check cache"
        (λ r. (ok (in_order unmarshal keys r.found), status_of keys r)) (cache_get keys)

  unfoldable pub page_keys : ℕ → ℤ → List String
  page_keys zero page = []
  page_keys (suc left) page = create_page_cache_key page ∷ page_keys left (page +ℤ pos 1)

  abbrev pub tokens_of_page : Option String → List J
  tokens_of_page none = []
  tokens_of_page (some page_bytes) = elim (unmarshal_page page_bytes) [
    | none ↦ []
    | some tokens ↦ decode_all unmarshal tokens
  ]

  unfoldable pub pages_in_order : List String → Map String String → List J
  pages_in_order [] found = []
  pages_in_order (key ∷ keys) found = tokens_of_page (lookup key found) ++ pages_in_order keys found

  -- `MarketsByPage`
  unfoldable pub markets_by_page : ℤ → ℤ → Answer
  markets_by_page page_from page_to =
      let keys = page_keys (pos_part (page_to -ℤ page_from +ℤ pos 1)) page_from in
      if leb_ℤ page_from (pos 0) || (leb_ℤ page_to (pos 0) || ltb_ℤ page_to page_from)
      then (err (msg "invalid page range"), miss)
      else after_get "failed to check cache for pages"
          (λ r. (ok (pages_in_order keys r.found), status_of keys r)) (cache_get keys)

  -- `Markets`
  unfoldable pub markets : MarketsParams → Answer
  markets params =
      if ltb 0 (length params.ids)
      then markets_by_ids params
      else if ltb_ℤ (pos 0) params.page
      then markets_by_page params.page params.page
      else (ok [], miss)

  unfoldable pub max_page_to : ℤ → List MarketTier → ℤ
  max_page_to top [] = top
  max_page_to top (tier ∷ tiers) =
      max_page_to (if ltb_ℤ top tier.page_to then tier.page_to else top) tiers

  abbrev pub limit_params : String → MarketsParams
  limit_params currency = apply_params_override cfg.market_params_normalize (record {
    currency = currency;
    order = "market_cap_desc";
    page = pos 0;
    per_page = markets_default_chunk_size;
    category = "";
    ids = [];
    sparkline_enabled = false;
    price_change_percentage = [];
  })

  -- `getMaxTokenLimit`
  unfoldable pub get_max_token_limit : ℤ
  unfolding max_page_to
  get_max_token_limit =
      let top = max_page_to (pos 0) cfg.tiers in
      if top == pos 0 then markets_default_chunk_size else top *ℤ (limit_params "usd").per_page

  -- Go's division of integers, which truncates; `none` is its panic.
  abbrev magnitude : ℤ → ℕ
  magnitude n = pos_part n + neg_part n

  abbrev quot : ℤ → ℤ → Option ℤ
  quot a b =
      let q = magnitude a / magnitude b in
      if b == pos 0
      then none
      else if not (xor (ltb_ℤ a (pos 0)) (ltb_ℤ b (pos 0)))
      then some (pos q)
      else some (pos 0 -ℤ pos q)

  -- `response[:limit]`; a negative limit panics.
  abbrev trimmed : ℤ → Answer → Option (Result (List J))
  trimmed limit (err e, status) = some (err (wrapped "failed to get markets data by pages" e))
  trimmed limit (ok response, status) =
      if ltb_ℤ limit (pos (length response))
      then if ltb_ℤ limit (pos 0) then none else some (ok (take (pos_part limit) response))
      else some (ok response)

  abbrev pub at_least_page_one : ℤ → ℤ
  at_least_page_one page = if page == pos 0 then pos 1 else page

  abbrev top_pages : ℤ → Option ℤ → Option (Result (List J))
  top_pages limit none = none
  top_pages limit (some page_to) =
      trimmed limit (markets_by_page (pos 1) (at_least_page_one page_to))

  abbrev pub clamped : ℤ → ℤ
  clamped limit =
      let wanted = if leb_ℤ limit (pos 0) then pos 100 else limit in
      if ltb_ℤ get_max_token_limit wanted then get_max_token_limit else wanted

  -- `TopMarkets`; `none` is a panic.
  unfoldable pub top_markets : ℤ → String → Option (Result (List J))
  top_markets limit currency =
      let per_page = (limit_params currency).per_page in
      top_pages (clamped limit) (quot (clamped limit +ℤ per_page -ℤ pos 1) per_page)

-- `TopMarketIds`
unfoldable pub top_market_ids : ℤ → TopIdsManager → List String × TopIdsManager
top_market_ids limit t =
    get_top_ids (if leb_ℤ limit (pos 0) then markets_default_chunk_size else limit) t
