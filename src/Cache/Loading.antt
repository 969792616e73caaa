-- ===== src/Cache/Loading.antt =====
-- What `GetOrLoad` of cache/service.go returns, what it asks of its loader, and what it leaves in
-- the cache.
use market_proxy.Prelude.{
  ℕ, String, ◌≡◌, refl, ap, ◌∙◌, inl, inr, Bool, true, false, Option, none, some, List, [], ◌∷◌,
  ◌==◌, string_eq, if◌then◌else◌, Bool-cases, Option-cases,
}
use market_proxy.Prelude.Sets.{is_in}
use market_proxy.Prelude.Int.{ℤ}
use market_proxy.Prelude.Maps.{
  Map, lookup, insert, merge, lookup-insert, lookup-merge, IsGoMap, or_in,
}
use market_proxy.Prelude.Errors.{Result, ok}
use market_proxy.Cache.{
  Store, get, set, only_keys, prepare_final_result, determine_keys_to_load, load_and_cache_local,
  load_missing, get_or_load,
}
use market_proxy.Cache.Laws.{cached, absent, or_in-none, get_lem}

same_either : (b : Bool) (o : Option String) → (if b then o else o) ≡ o
same_either true o = refl
same_either false o = refl

-- The two tests of a key that is found, and of one that is loaded.
settled :
    (only asked : Bool) (o : Option String)
    → (if only
        then (if asked then o else none)
        else (if asked then (if asked then o else none) else none))
      ≡ (if asked then o else none)
settled true asked o = refl
settled false true o = refl
settled false false o = refl

settled_loaded :
    (only asked : Bool) (p o : Option String)
    → (if only
        then or_in p (if asked then o else none)
        else (if asked then or_in p (if asked then o else none) else none))
      ≡ (if asked then or_in p o else (if only then p else none))
settled_loaded true true p o = refl
settled_loaded true false p o = or_in-none p
settled_loaded false true p o = refl
settled_loaded false false p o = refl

only_keys_lem :
    (k : String) (keys : List String) (data_ result : Map String String)
    → lookup k (only_keys keys data_ result)
      ≡ (if is_in k keys then or_in (lookup k data_) (lookup k result) else lookup k result)
unfolding only_keys
only_keys_lem k [] data_ result = refl
only_keys_lem k (key ∷ keys) data_ result = elim (Option-cases (lookup key data_)) [
  | inl e ↦
      rw (e, only_keys)
        (only_keys_lem k keys data_ result ∙ elim (Bool-cases (key == k)) [
          | inr q ↦ rw q refl
          | inl q ↦
              rw (q, ← (string_eq.same_iff key k).0 q, e)
                (same_either (is_in key keys) (lookup key result))
        ])
  | inr (v, e) ↦
      rw (e, only_keys)
        (only_keys_lem k keys data_ (insert key v result) ∙ elim (Bool-cases (key == k)) [
          | inr q ↦ rw (lookup-insert key k v result, q) refl
          | inl q ↦
              rw (lookup-insert key k v result, q, ← (string_eq.same_iff key k).0 q, e)
                (same_either (is_in key keys) (some v))
        ])
]

-- What the final result says of a key, from the data that was found and loaded.
prepare_lem :
    (k : String) (keys : List String) (data_ : Map String String) (only : Bool)
    → lookup k (prepare_final_result keys data_ only)
      ≡ (if only then lookup k data_ else (if is_in k keys then lookup k data_ else none))
unfolding prepare_final_result lookup
prepare_lem k keys data_ true = refl
prepare_lem k keys data_ false =
    only_keys_lem k keys data_ [] ∙ rw (or_in-none (lookup k data_)) refl

module _ (store : Store) {L : Type 0} (loader : L → List String → Result (Map String String) × L)
    (s : store.State) (now : ℕ) (l : L) where
  abbrev load : List String → Bool → ℤ → Result (Map String String) × store.State × L
  load keys only ttl = get_or_load store loader s now l keys only ttl

  -- With no key absent, the loader is not called, the cache stays, and the result is what is cached.
  pub get_or_load_hit :
      (keys : List String) (only : Bool) (ttl : ℤ)
      → absent store s now keys ≡ []
      → (m : Map String String) × (load keys only ttl ≡ (ok m, s, l))
        × ((k : String) → lookup k m ≡ (if is_in k keys then cached store s now k else none))
  unfolding get_or_load lookup
  get_or_load_hit [] only ttl h = ([], refl, λ k. refl)
  get_or_load_hit (key ∷ keys) only ttl h =
      let all = key ∷ keys in
      let r = get store s now all in
      let (found, missing) = get_lem store s now all in
      (
        prepare_final_result all r.found only,
        ap (λ ms. load_missing store loader s now l all only ttl r.found ms) (missing ∙ h),
        λ k.
            prepare_lem k all r.found only
            ∙ rw (found k) (settled only (is_in k all) (cached store s now k)),
      )

  -- With an absent key, the loader is called once, with the absent keys or with all of them. What
  -- it loads goes into the cache and, before what was cached, into the result.
  pub get_or_load_miss :
      (keys : List String) (only : Bool) (ttl : ℤ) (a : String) (others : List String)
      (loaded : Map String String) (l' : L)
      → absent store s now keys ≡ a ∷ others
      → loader l (if only then a ∷ others else keys) ≡ (ok loaded, l')
      → IsGoMap loaded
      → (m : Map String String) × (load keys only ttl ≡ (ok m, set store s now loaded ttl, l'))
        × ((k : String)
            → lookup k m ≡ (
                if is_in k keys
                then or_in (lookup k loaded) (cached store s now k)
                else (if only then lookup k loaded else none)))
  unfolding get_or_load load_and_cache_local determine_keys_to_load absent
  get_or_load_miss [] only ttl a others loaded l' h x g = absurd cc
  get_or_load_miss (key ∷ keys) only ttl a others loaded l' h x g =
      let all = key ∷ keys in
      let r = get store s now all in
      let (found, missing) = get_lem store s now all in
      (
        prepare_final_result all (merge r.found loaded) only,
        ap (λ ms. load_missing store loader s now l all only ttl r.found ms) (missing ∙ h)
            ∙ rw x refl,
        λ k.
            prepare_lem k all (merge r.found loaded) only
            ∙ rw (lookup-merge k r.found loaded g, found k)
                (settled_loaded only (is_in k all) (lookup k loaded) (cached store s now k)),
      )
