-- ===== src/Markets/Reading/Status.antt =====
-- What `MarketsByIds` of coingecko_markets/service.go returns, over the cache of cache/service.go.
use market_proxy.Prelude.{
  ℕ, String, ◌≡◌, ◌≢◌, refl, ap, sym, ◌∙◌, ◌↔◌, inl, inr, true, Option, none, List, [], ◌∷◌,
  string_eq, nat_eq, arith, All, In, map, length, Bool-cases,
}
use market_proxy.Prelude.Maps.{Map, lookup}
use market_proxy.Prelude.Sets.{is_in, is_in_iff, All-of_each, All-each, IsDistinct}
use market_proxy.Prelude.Errors.{Result, ok}
use market_proxy.Cache.{Store, GetResult, get}
use market_proxy.Cache.Laws.{cached, absent, get_lem}
use market_proxy.Cache.Counting.{length-found}
use market_proxy.Config.Markets.{MarketsFetcherConfig}
use market_proxy.Markets.Params.{MarketsParams, apply_params_override_twice}
use market_proxy.Markets.Keys.{
  get_cache_key, create_cache_keys, extract_token_id_from_key,
  extract_token_id_from_key-get_cache_key,
}
use market_proxy.Markets.Reading.{
  full, miss, status_of, decoded, append_some, in_order, markets_by_ids,
}

no_items : {A : Type 0} (xs : List A) → length xs ≡ 0 → xs ≡ []
no_items [] h = refl
no_items (x ∷ xs) h = absurd (omega arith)

full_lem : (keys : List String) (r : GetResult) → status_of keys r ≡ full → r.missing_keys ≡ []
unfolding status_of
full_lem keys r h = no_items r.missing_keys (ground arith)

miss_lem : (keys : List String) (r : GetResult) → status_of keys r ≡ miss → r.found ≡ []
unfolding status_of
miss_lem keys r h = no_items r.found (ground arith)

In-map : (f : String → String) (x : String) (xs : List String) → In x xs → In (f x) (map f xs)
In-map f x [] h = absurd h
In-map f x (y ∷ ys) (inl e) = inl (ap f e)
In-map f x (y ∷ ys) (inr h) = inr (In-map f x ys h)

In-keys :
    (ids : List String) → All (λ id. is_in (get_cache_key id) (map get_cache_key ids) ≡ true) ids
In-keys ids =
    All-of_each (λ id. is_in (get_cache_key id) (map get_cache_key ids) ≡ true) ids
      (λ id h.
        (is_in_iff (get_cache_key id) (map get_cache_key ids)).1 (In-map get_cache_key id ids h))

full_back :
    (keys : List String) (r : GetResult)
    → r.missing_keys ≡ []
    → length r.found ≡ length keys
    → status_of keys r ≡ full
unfolding status_of
full_back keys r m n = rw (m, status_of) (ground (arith, n))

pub get_cache_key_injective : (x y : String) → get_cache_key x ≡ get_cache_key y → x ≡ y
get_cache_key_injective x y e =
    sym (extract_token_id_from_key-get_cache_key x)
    ∙ ap extract_token_id_from_key e
    ∙ extract_token_id_from_key-get_cache_key y

apart_keys :
    (x : String) (ids : List String)
    → All (λ y. x ≢ y) ids
    → All (λ k. get_cache_key x ≢ k) (map get_cache_key ids)
apart_keys x [] h = tt
apart_keys x (y ∷ ys) h = ((λ e. h.0 (get_cache_key_injective x y e)), apart_keys x ys h.1)

IsDistinct-keys : (ids : List String) → IsDistinct ids → IsDistinct (map get_cache_key ids)
IsDistinct-keys [] h = tt
IsDistinct-keys (x ∷ xs) h = (apart_keys x xs h.0, IsDistinct-keys xs h.1)

some_keys : (ids : List String) → ids ≢ [] → map get_cache_key ids ≢ []
some_keys [] n e = n refl
some_keys (x ∷ xs) n e = absurd cc

nothing_found : (m : Map String String) → ((k : String) → lookup k m ≡ none) → m ≡ []
unfolding lookup
nothing_found [] h = refl
nothing_found ((j, v) ∷ m) h = absurd (let e = h j in ground (arith, e, string_eq.same_iff j j))

miss_back :
    (keys : List String) (r : GetResult) → keys ≢ [] → r.found ≡ [] → status_of keys r ≡ miss
unfolding status_of
miss_back [] r n m = absurd (n refl)
miss_back (k ∷ keys) r n m = rw (m, status_of) (ground arith)

module _ {J : Type 0} (unmarshal : String → Option J)
    (unmarshal_page : String → Option (List String)) (store : Store) (s : store.State) (now : ℕ)
    (cfg : MarketsFetcherConfig) where
  -- The cached tokens of the ids, in the order of the ids.
  unfoldable pub served : List String → List J
  served [] = []
  served (id ∷ ids) =
      append_some (decoded unmarshal (cached store s now (get_cache_key id))) (served ids)

  abbrev pub read : List String → Result GetResult
  read keys = ok (get store s now keys)

  in_order-served :
      (keys ids : List String)
      → All (λ id. is_in (get_cache_key id) keys ≡ true) ids
      → in_order unmarshal (map get_cache_key ids) (get store s now keys).found ≡ served ids
  unfolding in_order served
  in_order-served keys [] h = refl
  in_order-served keys (id ∷ ids) h =
      ap
        (λ o.
          append_some (decoded unmarshal o)
            (in_order unmarshal (map get_cache_key ids) (get store s now keys).found))
        ((get_lem store s now keys).0 (get_cache_key id) ∙ rw h.0 refl)
      ∙ ap (λ t. append_some (decoded unmarshal (cached store s now (get_cache_key id))) t)
          (in_order-served keys ids h.1)

  -- Nothing is cached for any of the keys.
  abbrev pub NoneCached : List String → Type 0
  NoneCached keys = All (λ k. cached store s now k ≡ none) keys

  miss-NoneCached :
      (keys : List String) → status_of keys (get store s now keys) ≡ miss → NoneCached keys
  unfolding lookup
  miss-NoneCached keys h =
      let r = get store s now keys in
      All-of_each (λ k. cached store s now k ≡ none) keys
        λ k i.
          let found = (get_lem store s now keys).0 k in
          let here = (is_in_iff k keys).1 i in
          sym (ap (λ m. lookup k m) (sym (miss_lem keys r h)) ∙ found ∙ rw here refl)

  NoneCached-miss :
      (keys : List String)
      → keys ≢ []
      → NoneCached keys
      → status_of keys (get store s now keys) ≡ miss
  NoneCached-miss keys n h =
      let r = get store s now keys in
      miss_back keys r n (
        nothing_found r.found λ k.
          (get_lem store s now keys).0 k ∙ elim (Bool-cases (is_in k keys)) [
            | inl e ↦
                rw e (All-each (λ j. cached store s now j ≡ none) keys h k ((is_in_iff k keys).0 e))
            | inr e ↦ rw e refl
          ])

  -- The ids are answered from the cache, in the order in which they are asked for: the tokens that are
  -- cached and can be decoded, and no others.
  pub markets_by_ids-served :
      (params : MarketsParams)
      → (markets_by_ids unmarshal unmarshal_page read cfg params).0 ≡ ok (served params.ids)
  unfolding markets_by_ids create_cache_keys
  markets_by_ids-served params =
      let same = (apply_params_override_twice cfg.market_params_normalize params).2 in
      rw same
        (ap ok (in_order-served (map get_cache_key params.ids) params.ids (In-keys params.ids)))

  -- If some ids are asked for, and none twice, the status is `full` exactly if every id is cached,
  -- and `miss` exactly if none is.
  pub markets_by_ids_status :
      (params : MarketsParams)
      → params.ids ≢ []
      → IsDistinct params.ids
      → (((markets_by_ids unmarshal unmarshal_page read cfg params).1 ≡ full)
          ↔ (absent store s now (map get_cache_key params.ids) ≡ []))
        × (((markets_by_ids unmarshal unmarshal_page read cfg params).1 ≡ miss)
            ↔ NoneCached (map get_cache_key params.ids))
  unfolding markets_by_ids create_cache_keys
  markets_by_ids_status params n d =
      let same = (apply_params_override_twice cfg.market_params_normalize params).2 in
      let keys = map get_cache_key params.ids in
      let missing = (get_lem store s now keys).1 in
      rw same (
        (
          (λ h. sym missing ∙ full_lem keys (get store s now keys) h),
          (λ h.
              full_back keys (get store s now keys) (missing ∙ h)
                (length-found store s now keys (IsDistinct-keys params.ids d) h)),
        ),
        ((λ h. miss-NoneCached keys h), (λ h. NoneCached-miss keys (some_keys params.ids n) h)),
      )
