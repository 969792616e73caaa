-- ===== src/Markets/Filling/Served.antt =====
-- What coingecko_markets/service.go puts into the cache comes back to clients.
use market_proxy.Prelude.{
  ℕ, ◌+◌, ◌≤◌, String, ◌≡◌, refl, ap, sym, ◌∙◌, inl, inr, Bool, Option, List, [], ◌∷◌, string_eq,
  Bool-cases, arith,
}
use market_proxy.Prelude.Int.{pos, pos_part, ltb_ℤ, ◌<ℤ◌}
use market_proxy.Prelude.Maps.{Map, lookup, IsGoMap, or_in}
use market_proxy.Prelude.Errors.{Result, ok, err}
use market_proxy.Json.{Json}
use market_proxy.Cache.{Store}
use market_proxy.Cache.Laws.{IsGoCache, cached, get-set, or_in-none}
use market_proxy.Config.Markets.{MarketsFetcherConfig, markets_ttl}
use market_proxy.Markets.Data.{PageData}
use market_proxy.Markets.Keys.{get_cache_key}
use market_proxy.Markets.Params.{MarketsParams}
use market_proxy.Markets.Reading.{markets_by_ids, decoded, append_some}
use market_proxy.Markets.Reading.Status.{served, read, markets_by_ids-served}
use market_proxy.Markets.Filling.{
  parse_tokens_data, parse_pages_data, Service, set_some, cache_tokens_by_id, cache_each_page,
  set_parsed, cache_tokens_page, handle_tier_pages_update,
}
use market_proxy.Markets.Filling.Parsed.{
  newest, newest_in_pages, or_in_assoc, lookup-parse_tokens_data, parse_tokens_data-IsGoMap,
  IsAside, parse_pages_data-IsAside,
}

ttl_positive : (c : MarketsFetcherConfig) → pos 0 <ℤ markets_ttl c
unfolding markets_ttl
ttl_positive c = elim (Bool-cases (ltb_ℤ (pos 0) c.ttl)) [
  | inl e ↦ rw e (ground (arith, e))
  | inr e ↦ rw e (omega arith)
]

module _ (store : Store) (laws : IsGoCache store) (c : MarketsFetcherConfig) {F : Type 0}
    (unmarshal : String → Option (Json F)) (now later : ℕ) (a : now ≤ later)
    (b : later ≤ now + pos_part (markets_ttl c)) where
  abbrev token : store.State → String → Option String
  token s id = cached store s later (get_cache_key id)

  token-set_some :
      (s : store.State) (id : String) (entries : Map String String)
      → IsGoMap entries
      → token (set_some store c unmarshal s now entries) id
        ≡ or_in (lookup (get_cache_key id) entries) (token s id)
  unfolding lookup
  token-set_some s id [] g = refl
  token-set_some s id (entry ∷ entries) g =
      get-set store laws s now later (entry ∷ entries) (markets_ttl c) (get_cache_key id) g
        (ttl_positive c) a b

  token-cache_tokens_by_id :
      (s : store.State) (id : String) (items : List String)
      → token (cache_tokens_by_id store c unmarshal s now items) id
        ≡ or_in (newest unmarshal id items) (token s id)
  unfolding cache_tokens_by_id lookup
  token-cache_tokens_by_id s id items =
      token-set_some s id (parse_tokens_data unmarshal items [])
        (parse_tokens_data-IsGoMap unmarshal items [] tt)
      ∙ ap (λ o. or_in o (token s id))
          (lookup-parse_tokens_data unmarshal id items [] ∙ or_in-none (newest unmarshal id items))

  token-cache_each_page :
      (s : store.State) (id : String) (pages : List PageData)
      → token (cache_each_page store c unmarshal s now pages) id
        ≡ or_in (newest_in_pages unmarshal id pages) (token s id)
  unfolding cache_each_page
  token-cache_each_page s id [] = refl
  token-cache_each_page s id (p ∷ pages) =
      token-cache_each_page (cache_tokens_by_id store c unmarshal s now p.items) id pages
      ∙ ap (or_in (newest_in_pages unmarshal id pages)) (token-cache_tokens_by_id s id p.items)
      ∙ sym (
          or_in_assoc (newest_in_pages unmarshal id pages) (newest unmarshal id p.items)
            (token s id))

  module _ (marshal marshal_ids : List String → Result String) where
    token-set_parsed :
        (s : store.State) (id : String) (r : Result (Map String String))
        → IsAside unmarshal marshal marshal_ids id [] r
        → token (set_parsed store c unmarshal marshal marshal_ids s now r) id ≡ token s id
    unfolding lookup
    token-set_parsed s id (err e) h = refl
    token-set_parsed s id (ok m) h = token-set_some s id m h.0 ∙ ap (λ o. or_in o (token s id)) h.1

    token-cache_tokens_page :
        (s : store.State) (id : String) (pages : List PageData)
        → token (cache_tokens_page store c unmarshal marshal marshal_ids s now pages) id
          ≡ token s id
    unfolding cache_tokens_page
    token-cache_tokens_page s id pages =
        token-set_parsed s id (parse_pages_data unmarshal marshal marshal_ids pages [])
          (parse_pages_data-IsAside unmarshal marshal marshal_ids id pages [] tt)

    module _ {J : Type 0} (decode : String → Option J)
        (unmarshal_page : String → Option (List String)) where
      -- The tokens of the ids, in their order: the newest of the pages, and what was cached for an id
      -- that the pages do not have.
      abbrev pub tokens_of : List PageData → store.State → List String → List J
      tokens_of pages s [] = []
      tokens_of pages s (id ∷ ids) =
          append_some (decoded decode (or_in (newest_in_pages unmarshal id pages) (token s id)))
            (tokens_of pages s ids)

      abbrev after_update : (ℕ → Bool) → List PageData → Service store → Service store
      after_update quits pages s =
          handle_tier_pages_update store c unmarshal marshal marshal_ids quits pages now s

      served-tokens_of :
          (quits : ℕ → Bool) (pages : List PageData) (s : Service store) (ids : List String)
          → served decode unmarshal_page store (after_update quits pages s).cache later c ids
            ≡ tokens_of pages s.cache ids
      unfolding served handle_tier_pages_update
      served-tokens_of quits pages s [] = refl
      served-tokens_of quits pages s (id ∷ ids) =
          let filled = cache_each_page store c unmarshal s.cache now pages in
          rw (served-tokens_of quits pages s ids) (
            ap (λ o. append_some (decoded decode o) (tokens_of pages s.cache ids))
              (token-cache_tokens_page filled id pages ∙ token-cache_each_page s.cache id pages))

      -- When the updater has handed over pages, and until their time is over, `MarketsByIds` answers
      -- with the newest token of the pages for each id that they have, and for the others with what
      -- was cached before, in the order of the ids.
      pub markets_by_ids-handle_tier_pages_update :
          (quits : ℕ → Bool) (pages : List PageData) (s : Service store) (params : MarketsParams)
          → (markets_by_ids decode unmarshal_page
              (read decode unmarshal_page store
                (handle_tier_pages_update store c unmarshal marshal marshal_ids quits pages now
                  s).cache
                later
                c)
              c
              params).0
            ≡ ok (tokens_of pages s.cache params.ids)
      markets_by_ids-handle_tier_pages_update quits pages s params =
          markets_by_ids-served decode unmarshal_page store (after_update quits pages s).cache later
            c params
          ∙ ap ok (served-tokens_of quits pages s params.ids)
