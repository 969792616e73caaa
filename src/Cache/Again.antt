-- ===== src/Cache/Again.antt =====
-- A load and the loads after it: what cache/service.go loaded once is answered from the cache
-- while its time lasts.
use mathlib.Core.Path.{subst}
use market_proxy.Prelude.{
  none, if◌then◌else◌, ℕ, ◌+◌, ◌≤◌, String, ◌≡◌, refl, ◌∙◌, inl, inr, Bool, true, some, List, [],
  ◌∷◌, ◌==◌, string_eq, arith, All, Bool-cases,
}
use market_proxy.Prelude.Sets.{is_in}
use market_proxy.Prelude.Int.{ℤ, pos, pos_part, ◌<ℤ◌}
use market_proxy.Prelude.Maps.{Map, lookup, IsGoMap}
use market_proxy.Prelude.Errors.{Result, ok}
use market_proxy.Cache.{Store, set, get_or_load}
use market_proxy.Cache.Laws.{IsGoCache, cached, absent, get-set}
use market_proxy.Cache.Loading.{get_or_load_hit}

-- The entries have a value for the key.
abbrev pub IsLoaded : Map String String → String → Type 0
IsLoaded loaded k = (v : String) × (lookup k loaded ≡ some v)

module _ (store : Store) (laws : IsGoCache store) (s : store.State) (now later : ℕ)
    (loaded : Map String String) (ttl : ℤ) (map_ : IsGoMap loaded) (lasts : pos 0 <ℤ ttl)
    (after : now ≤ later) (before : later ≤ now + pos_part ttl) where
  cached_loaded :
      (k : String)
      → IsLoaded loaded k
      → cached store (set store s now loaded ttl) later k ≡ lookup k loaded
  cached_loaded k (v, e) =
      get-set store laws s now later loaded ttl k map_ lasts after before ∙ rw e refl

  absent_loaded :
      (keys : List String)
      → All (IsLoaded loaded) keys
      → absent store (set store s now loaded ttl) later keys ≡ []
  unfolding absent
  absent_loaded [] h = refl
  absent_loaded (k ∷ keys) (e, h) = rw (cached_loaded k e, e.1, absent) (absent_loaded keys h)

  in-IsLoaded :
      (k : String) (keys : List String)
      → All (IsLoaded loaded) keys
      → is_in k keys ≡ true
      → IsLoaded loaded k
  in-IsLoaded k [] h i = absurd cc
  in-IsLoaded k (j ∷ keys) h i = elim (Bool-cases (j == k)) [
    | inl e ↦ subst (IsLoaded loaded) ((string_eq.same_iff j k).0 e) h.0
    | inr e ↦ in-IsLoaded k keys h.1 (ground arith)
  ]

  -- What a load has put into the cache is found there until its time is over: a later `GetOrLoad`
  -- of such keys does not call its loader, changes nothing and returns the loaded values.
  pub get_or_load_again :
      {L : Type 0} (loader : L → List String → Result (Map String String) × L) (l : L)
      (keys : List String) (only : Bool) (next_ttl : ℤ)
      → All (IsLoaded loaded) keys
      → (m : Map String String) × (get_or_load store loader
            (set store s now loaded ttl)
            later
            l
            keys
            only
            next_ttl
          ≡ (ok m, set store s now loaded ttl, l))
        × ((k : String) → lookup k m ≡ (if is_in k keys then lookup k loaded else none))
  get_or_load_again loader l keys only next_ttl h =
      let (m, e, values) =
        get_or_load_hit store loader (set store s now loaded ttl) later l keys only next_ttl
          (absent_loaded keys h) in
      (
        m,
        e,
        λ k. values k ∙ elim (Bool-cases (is_in k keys)) [
          | inl i ↦ rw i (cached_loaded k (in-IsLoaded k keys h i))
          | inr i ↦ rw i refl
        ],
      )
