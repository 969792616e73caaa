-- ===== src/ById/Serving/Served.antt =====
-- What fetcher_by_id/service.go answers after an update.
use market_proxy.Prelude.{
  ℕ, ◌+◌, ◌≤◌, String, ◌≡◌, ◌≢◌, refl, sym, ap, ◌∙◌, inl, inr, Bool, Option, none, some, List, [],
  ◌∷◌, ◌==◌, string_eq, Bool-cases, Option-cases, All, same-injective, arith,
}
use mathlib.Core.Path.{subst}
use market_proxy.Prelude.Int.{pos, pos_part, leb_ℤ, ◌<ℤ◌}
use market_proxy.Prelude.Maps.{
  Map, lookup, insert, or_in, IsGoMap, insert-IsGoMap, lookup-insert, lookup_absent,
}
use market_proxy.Prelude.Text.{concat, cut_prefix, cut_prefix-concat}
use market_proxy.Prelude.Errors.{msg, Result, ok, err}
use market_proxy.Cache.{Store, get}
use market_proxy.Cache.Laws.{IsGoCache, cached, absent, get_lem, get-set, or_in-none}
use market_proxy.Config.FetcherById.{FetcherByIdConfig, build_cache_key, get_ttl}
use market_proxy.Markets.Reading.{CacheStatus, full, miss}
use market_proxy.ById.Serving.{Service, by_cache_key, cache_by_id, on_data_updated, get_by_id}

-- The answer for an item that the cache has, or has not.
abbrev pub answer_of : Option String → Result String × CacheStatus
answer_of none = (err (msg "item not found"), miss)
answer_of (some data_) = (ok data_, full)

module _ (c : FetcherByIdConfig) where
  key_injective : (a b : String) → build_cache_key c a ≡ build_cache_key c b → a ≡ b
  unfolding build_cache_key
  key_injective a b e =
      let cut = λ (s : String). cut_prefix c.name s in
      let first : some (concat ":id:" a) ≡ some (concat ":id:" b) =
        sym (cut_prefix-concat c.name (concat ":id:" a))
        ∙ ap cut e
        ∙ cut_prefix-concat c.name (concat ":id:" b) in
      let behind : concat ":id:" a ≡ concat ":id:" b = cc in
      let q : some a ≡ some b =
        sym (cut_prefix-concat ":id:" a)
        ∙ ap (cut_prefix ":id:") behind
        ∙ cut_prefix-concat ":id:" b in
      cc

  same_key : (a b : String) → (build_cache_key c a == build_cache_key c b) ≡ (a == b)
  same_key a b = same-injective (build_cache_key c) key_injective a b

  lookup-by_cache_key :
      (id : String) (data_ acc : Map String String)
      → IsGoMap data_
      → lookup (build_cache_key c id) (by_cache_key c data_ acc)
        ≡ or_in (lookup id data_) (lookup (build_cache_key c id) acc)
  unfolding by_cache_key lookup
  lookup-by_cache_key id [] acc g = refl
  lookup-by_cache_key id ((own, item) ∷ rest) acc g =
      lookup-by_cache_key id rest (insert (build_cache_key c own) item acc) g.1
      ∙ ap (or_in (lookup id rest))
          (lookup-insert (build_cache_key c own) (build_cache_key c id) item acc)
      ∙ elim (Bool-cases (own == id)) [
        | inl e ↦
            rw (same_key own id, e)
              (ap (λ o. or_in o (some item))
                (lookup_absent id rest (
                  subst (λ x. All (λ (b : String × String). x ≢ b.0) rest)
                    ((string_eq.same_iff own id).0 e) g.0)))
        | inr e ↦ rw (same_key own id, e) refl
      ]

  by_cache_key-IsGoMap :
      (data_ acc : Map String String) → IsGoMap acc → IsGoMap (by_cache_key c data_ acc)
  unfolding by_cache_key
  by_cache_key-IsGoMap [] acc h = h
  by_cache_key-IsGoMap ((own, item) ∷ rest) acc h =
      by_cache_key-IsGoMap rest (insert (build_cache_key c own) item acc)
        (insert-IsGoMap (build_cache_key c own) item acc h)

  ttl_positive : pos 0 <ℤ get_ttl c
  unfolding get_ttl
  ttl_positive = elim (Bool-cases (leb_ℤ c.ttl (pos 0))) [
    | inl e ↦ rw e (omega arith)
    | inr e ↦ rw e (ground (arith, e))
  ]

module _ (store : Store) (c : FetcherByIdConfig) where
  abbrev own_if : String → Option String → List String
  own_if key none = key ∷ []
  own_if key (some d) = []

  absent_one :
      (s : store.State) (now : ℕ) (key : String)
      → absent store s now (key ∷ []) ≡ own_if key (cached store s now key)
  unfolding absent
  absent_one s now key = go (cached store s now key)
    where
      go : (o : Option String) → (elim o [ none ↦ key ∷ [] | some b ↦ [] ]) ≡ own_if key o
      go none = refl
      go (some b) = refl

  -- The answer for one id comes from what is cached under its key.
  get_by_id-cached :
      (s : store.State) (now : ℕ) (id : String)
      → get_by_id store c s now id ≡ answer_of (cached store s now (build_cache_key c id))
  unfolding get_by_id
  get_by_id-cached s now id =
      let key = build_cache_key c id in
      let (found, missing) = get_lem store s now (key ∷ []) in
      let self = (string_eq.same_iff key key).1 refl in
      let here : lookup key (get store s now (key ∷ [])).found ≡ cached store s now key =
        found key ∙ rw self refl in
      elim (Option-cases (cached store s now key)) [
        | inl n ↦
            let gone : (get store s now (key ∷ [])).missing_keys ≡ key ∷ [] =
              missing ∙ absent_one s now key ∙ ap (own_if key) n in
            rw (gone, n) refl
        | inr v ↦
            let (d, e) = v in
            let there : (get store s now (key ∷ [])).missing_keys ≡ [] =
              missing ∙ absent_one s now key ∙ ap (own_if key) e in
            rw (there, here, e) refl
      ]

  module _ (laws : IsGoCache store) (now later : ℕ) (a : now ≤ later)
      (b : later ≤ now + pos_part (get_ttl c)) where
    cached-cache_by_id :
        (s : store.State) (id : String) (data_ : Map String String)
        → IsGoMap data_
        → cached store (cache_by_id store c s now data_) later (build_cache_key c id)
          ≡ or_in (lookup id data_) (cached store s later (build_cache_key c id))
    unfolding cache_by_id lookup
    cached-cache_by_id s id [] g = refl
    cached-cache_by_id s id (item ∷ items) g =
        let all = item ∷ items in
        get-set store laws s now later (by_cache_key c all []) (get_ttl c) (build_cache_key c id)
          (by_cache_key-IsGoMap c all [] tt) (ttl_positive c) a b
        ∙ ap (λ o. or_in o (cached store s later (build_cache_key c id)))
            (lookup-by_cache_key c id all [] g ∙ or_in-none (lookup id all))

    -- When the updater has handed over items, and until their time is over, an item of them is
    -- answered with status full, and any other as it is cached from before, or as not found.
    pub get_by_id-on_data_updated :
        (quits : ℕ → Bool) (data_ : Map String String) (s : Service store) (id : String)
        → IsGoMap data_
        → get_by_id store c (on_data_updated store c quits data_ now s).cache later id
          ≡ answer_of (or_in (lookup id data_) (cached store s.cache later (build_cache_key c id)))
    unfolding on_data_updated
    get_by_id-on_data_updated quits data_ s id g =
        get_by_id-cached (cache_by_id store c s.cache now data_) later id
        ∙ ap answer_of (cached-cache_by_id s.cache id data_ g)
