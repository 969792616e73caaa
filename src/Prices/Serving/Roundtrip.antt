-- ===== src/Prices/Serving/Roundtrip.antt =====
-- What goes into the cache by coingecko_prices/service.go comes back to clients.
use mathlib.Core.Path.{subst}
use market_proxy.Prelude.{
  ℕ, ◌+◌, ◌≤◌, String, ◌≡◌, ◌≢◌, inl, inr, refl, ap, sym, ◌∙◌, Bool, true, false, Option, none,
  some, List, [], ◌∷◌, ◌==◌, string_eq, if◌then◌else◌, if-cases, same-injective, Bool-cases, All,
  map, arith,
}
use market_proxy.Prelude.Int.{ℤ, pos, pos_part, ltb_ℤ, ◌<ℤ◌}
use market_proxy.Prelude.Maps.{
  Map, lookup, insert, lookup-insert, IsGoMap, insert-IsGoMap, lookup_absent, or_in,
}
use market_proxy.Prelude.Sets.{is_in}
use market_proxy.Prelude.Text.{cut_prefix, cut_prefix-concat}
use market_proxy.Prelude.Errors.{Result, ok}
use market_proxy.Json.{Json, Fields, obj}
use market_proxy.Cache.{Store, GetResult, get}
use market_proxy.Cache.Laws.{IsGoCache, cached, get_lem, get-set, or_in-none}
use market_proxy.Config.Prices.{PricesFetcherConfig, prices_ttl}
use market_proxy.Prices.Data.{PriceParams, create_token_id_cache_key}
use market_proxy.Prices.Strip.{strip_response}
use market_proxy.Prices.Strip.Served.{field_in, field_of, served, strip_response_lem}
use market_proxy.Prices.Serving.{
  by_cache_key, cache_prices_by_id, put_token, full_response, prices_of, simple_prices,
}

key_injective : (a b : String) → create_token_id_cache_key a ≡ create_token_id_cache_key b → a ≡ b
unfolding create_token_id_cache_key
key_injective a b e =
    let q : some a ≡ some b =
      sym (cut_prefix-concat "price:id:" a)
      ∙ ap (cut_prefix "price:id:") e
      ∙ cut_prefix-concat "price:id:" b in
    cc

-- A token is cached under its key alone.
same_key : (a b : String) → (create_token_id_cache_key a == create_token_id_cache_key b) ≡ (a == b)
same_key a b = same-injective create_token_id_cache_key key_injective a b

-- The new prices, by the keys of the cache.
lookup-by_cache_key :
    (id : String) (prices acc : Map String String)
    → IsGoMap prices
    → lookup (create_token_id_cache_key id) (by_cache_key prices acc)
      ≡ or_in (lookup id prices) (lookup (create_token_id_cache_key id) acc)
unfolding by_cache_key lookup
lookup-by_cache_key id [] acc g = refl
lookup-by_cache_key id ((tid, price) ∷ rest) acc g =
    let k = create_token_id_cache_key id in
    lookup-by_cache_key id rest (insert (create_token_id_cache_key tid) price acc) g.1
    ∙ ap (or_in (lookup id rest)) (lookup-insert (create_token_id_cache_key tid) k price acc)
    ∙ elim (Bool-cases (tid == id)) [
      | inl e ↦
          rw (same_key tid id, e)
            (ap (λ o. or_in o (some price))
              (lookup_absent id rest (
                subst (λ x. All (λ (b : String × String). x ≢ b.0) rest)
                  ((string_eq.same_iff tid id).0 e) g.0)))
      | inr e ↦ rw (same_key tid id, e) refl
    ]

by_cache_key-IsGoMap :
    (prices acc : Map String String) → IsGoMap acc → IsGoMap (by_cache_key prices acc)
unfolding by_cache_key
by_cache_key-IsGoMap [] acc h = h
by_cache_key-IsGoMap ((tid, price) ∷ rest) acc h =
    by_cache_key-IsGoMap rest (insert (create_token_id_cache_key tid) price acc)
      (insert-IsGoMap (create_token_id_cache_key tid) price acc h)

module _ {F : Type 0} (unmarshal : String → Option (Fields F)) where
  abbrev pub as_object : Option (Fields F) → Option (Json F)
  as_object none = none
  as_object (some fs) = some (obj fs)

  -- The data of a token, from its bytes.
  abbrev pub token : Option String → Option (Json F)
  token none = none
  token (some token_bytes) = as_object (unmarshal token_bytes)

  lookup-put_token :
      (id tid : String) (o : Option String) (response : Map String (Json F))
      → lookup id (put_token unmarshal tid o response)
        ≡ (if tid == id then or_in (token o) (lookup id response) else lookup id response)
  lookup-put_token id tid none response = same_either (tid == id)
    where
      same_either :
          (b : Bool) → lookup id response ≡ (if b then lookup id response else lookup id response)
      same_either true = refl
      same_either false = refl
  lookup-put_token id tid (some token_bytes) response = decoded (unmarshal token_bytes)
    where
      decoded :
          (o : Option (Fields F))
          → lookup id
              (elim o [ none ↦ response | some token_data ↦ insert tid (obj token_data) response ])
            ≡ (if tid == id then or_in (as_object o) (lookup id response) else lookup id response)
      decoded none = if-cases (λ x. lookup id response ≡ x) (tid == id) (λ e. refl) (λ e. refl)
      decoded (some fs) = lookup-insert tid id (obj fs) response

  put_token-IsGoMap :
      (tid : String) (o : Option String) (response : Map String (Json F))
      → IsGoMap response
      → IsGoMap (put_token unmarshal tid o response)
  put_token-IsGoMap tid none response h = h
  put_token-IsGoMap tid (some token_bytes) response h =
      elim (unmarshal token_bytes)
        as (λ o. IsGoMap (elim o as (λ x. Map String (Json F)) [
          | none ↦ response
          | some fs ↦ insert tid (obj fs) response
        ])) [ none ↦ h | some fs ↦ insert-IsGoMap tid (obj fs) response h ]

  full_response-IsGoMap :
      (ids : List String) (found : Map String String) (response : Map String (Json F))
      → IsGoMap response
      → IsGoMap (full_response unmarshal ids found response)
  unfolding full_response
  full_response-IsGoMap [] found response h = h
  full_response-IsGoMap (id ∷ ids) found response h =
      full_response-IsGoMap ids found
        (put_token unmarshal id (lookup (create_token_id_cache_key id) found) response)
        (put_token-IsGoMap id (lookup (create_token_id_cache_key id) found) response h)

  twice :
      (b : Bool) (o p : Option (Json F))
      → (if b then or_in o (or_in o p) else or_in o p) ≡ or_in o p
  twice true none p = refl
  twice true (some x) p = refl
  twice false o p = refl

  lookup-full_response :
      (id : String) (ids : List String) (found : Map String String) (response : Map String (Json F))
      → lookup id (full_response unmarshal ids found response) ≡ (
          if is_in id ids
          then or_in (token (lookup (create_token_id_cache_key id) found)) (lookup id response)
          else lookup id response)
  unfolding full_response
  lookup-full_response id [] found response = refl
  lookup-full_response id (tid ∷ ids) found response =
      let o = lookup (create_token_id_cache_key tid) found in
      lookup-full_response id ids found (put_token unmarshal tid o response)
      ∙ ap
          (λ l.
            if is_in id ids
            then or_in (token (lookup (create_token_id_cache_key id) found)) l
            else l)
          (lookup-put_token id tid o response)
      ∙ elim (Bool-cases (tid == id)) [
        | inl e ↦
            rw (e, (string_eq.same_iff tid id).0 e)
              (twice (is_in id ids) (token (lookup (create_token_id_cache_key id) found))
                (lookup id response))
        | inr e ↦ rw e refl
      ]

is_in-keys :
    (id : String) (ids : List String)
    → is_in (create_token_id_cache_key id) (map create_token_id_cache_key ids) ≡ is_in id ids
is_in-keys id [] = refl
is_in-keys id (tid ∷ ids) = rw (same_key tid id, is_in-keys id ids) refl

ttl_positive : (c : PricesFetcherConfig) → pos 0 <ℤ prices_ttl c
unfolding prices_ttl
ttl_positive c = elim (Bool-cases (ltb_ℤ (pos 0) c.ttl)) [
  | inl e ↦ rw e (ground (arith, e))
  | inr e ↦ rw e (omega arith)
]

-- What the cache has for a token after an update.
cached-cache_prices_by_id :
    (store : Store) (laws : IsGoCache store) (c : PricesFetcherConfig) (s : store.State)
    (now later : ℕ) (prices : Map String String) (id : String)
    → IsGoMap prices
    → now ≤ later
    → later ≤ now + pos_part (prices_ttl c)
    → cached store (cache_prices_by_id store c s now prices) later (create_token_id_cache_key id)
      ≡ or_in (lookup id prices) (cached store s later (create_token_id_cache_key id))
unfolding cache_prices_by_id lookup
cached-cache_prices_by_id store laws c s now later [] id g a b = refl
cached-cache_prices_by_id store laws c s now later (price ∷ prices) id g a b =
    let k = create_token_id_cache_key id in
    let all = price ∷ prices in
    get-set store laws s now later (by_cache_key all []) (prices_ttl c) k
      (by_cache_key-IsGoMap all [] tt) (ttl_positive c) a b
    ∙ ap (λ o. or_in o (cached store s later k))
        (lookup-by_cache_key id all [] g ∙ or_in-none (lookup id all))

module _ {F : Type 0} (unmarshal : String → Option (Fields F)) (atoi : String → Option ℤ)
    (round : ℤ → F → F) (store : Store) (c : PricesFetcherConfig) where
  abbrev pub read : store.State → ℕ → List String → Result GetResult
  read s now keys = ok (get store s now keys)

  found_token :
      (s : store.State) (now : ℕ) (ids : List String) (id : String)
      → lookup id (
          full_response unmarshal ids
            (get store s now (map create_token_id_cache_key ids)).found
            [])
        ≡ (if is_in id ids
            then token unmarshal (cached store s now (create_token_id_cache_key id))
            else none)
  unfolding lookup
  found_token s now ids id =
      let keys = map create_token_id_cache_key ids in
      let k = create_token_id_cache_key id in
      lookup-full_response unmarshal id ids (get store s now keys).found []
      ∙ elim (Bool-cases (is_in id ids)) [
        | inr e ↦ rw e refl
        | inl e ↦
            rw (e, (get_lem store s now keys).0 k, is_in-keys id ids, e)
              (or_in_none (token unmarshal (cached store s now k)))
      ]
    where
      or_in_none : (o : Option (Json F)) → or_in o none ≡ o
      or_in_none none = refl
      or_in_none (some x) = refl

  -- `SimplePrices` without an error, which the cache does not have.
  answered :
      (s : store.State) (now : ℕ) (params : PriceParams) (ids : List String) (id name : String)
      → (response : Map String (Json F)) × ((prices_of unmarshal atoi round
            (read s now)
            params
            ids).0
          ≡ ok response)
        × (params.ids ≡ ids
            → field_of id name response
              ≡ served atoi round params name (
                  field_in name (
                    if is_in id ids
                    then token unmarshal (cached store s now (create_token_id_cache_key id))
                    else none)))
  unfolding lookup
  answered s now params [] id name = ([], refl, λ e. refl)
  answered s now params (i ∷ ids) id name =
      let keys = map create_token_id_cache_key (i ∷ ids) in
      let found = (get store s now keys).found in
      (
        strip_response atoi round (full_response unmarshal params.ids found []) params,
        refl,
        λ e.
            strip_response_lem atoi round params (full_response unmarshal params.ids found []) id
              name (full_response-IsGoMap unmarshal params.ids found [] tt)
            ∙ ap (λ o. served atoi round params name (field_in name o))
                (ap (λ xs. lookup id (full_response unmarshal xs found [])) e
                  ∙ found_token s now (i ∷ ids) id),
      )

  -- What the updater hands over is what clients read, until its time is over: for each id that is
  -- asked for, the new price if there is one, and otherwise what was cached before; and of that the
  -- fields that are asked for.
  pub simple_prices-cache_prices_by_id :
      (laws : IsGoCache store) (s : store.State) (now later : ℕ) (prices : Map String String)
      (params : PriceParams) (id name : String)
      → IsGoMap prices
      → now ≤ later
      → later ≤ now + pos_part (prices_ttl c)
      → (response : Map String (Json F)) × ((simple_prices unmarshal atoi round
            (read (cache_prices_by_id store c s now prices) later)
            params).0
          ≡ ok response)
        × (field_of id name response
            ≡ served atoi round params name (
                field_in name (
                  if is_in id params.ids
                  then token unmarshal (
                      or_in
                        (lookup id prices)
                        (cached store s later (create_token_id_cache_key id)))
                  else none)))
  unfolding simple_prices
  simple_prices-cache_prices_by_id laws s now later prices params id name g a b =
      let (response, e, f) =
        answered (cache_prices_by_id store c s now prices) later params params.ids id name in
      (
        response,
        e,
        f refl
            ∙ ap
                (λ o.
                  served atoi round params name
                    (field_in name (if is_in id params.ids then token unmarshal o else none)))
                (cached-cache_prices_by_id store laws c s now later prices id g a b),
      )
