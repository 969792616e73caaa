-- ===== src/Cache/Laws.antt =====
-- What the cache relies on in go-cache, and what follows for many keys at once.
use market_proxy.Prelude.{
  ℕ, ◌+◌, ◌≤◌, ◌<◌, String, ◌≡◌, ◌≢◌, refl, ap, sym, ◌∙◌, ◌⊎◌, inl, inr, Bool, true, false, Option,
  none, some, List, [], ◌∷◌, ◌++◌, ◌==◌, string_eq, if◌then◌else◌, arith, Bool-cases,
}
use mathlib.Core.List.{append_assoc, append-nil}
use market_proxy.Prelude.Sets.{is_in}
use market_proxy.Prelude.Int.{ℤ, pos, pos_part, ◌<ℤ◌}
use market_proxy.Prelude.Maps.{Map, lookup, lookup-insert, IsGoMap, or_in, lookup_absent}
use market_proxy.Cache.{Store, Item, bytes, other, GetResult, note_item, get_each, get, set}

-- The documented behaviour of `cache.Cache`.
pub record IsGoCache (store : Store) : Type 0 where
  pub get_set :
      (s : store.State) (now later : ℕ) (key : String) (item : Item) (ttl : ℤ)
      → pos 0 <ℤ ttl
      → now ≤ later
      → later ≤ now + pos_part ttl
      → store.get (store.set s now key item ttl) later key ≡ some item
  pub get_set_other :
      (s : store.State) (now later : ℕ) (key asked : String) (item : Item) (ttl : ℤ)
      → key ≢ asked
      → store.get (store.set s now key item ttl) later asked ≡ store.get s later asked
  pub get_expired :
      (s : store.State) (now later : ℕ) (key : String) (item : Item) (ttl : ℤ)
      → pos 0 <ℤ ttl
      → now + pos_part ttl < later
      → store.get (store.set s now key item ttl) later key ≡ none
  pub get_delete :
      (s : store.State) (now : ℕ) (key : String) → store.get (store.delete s key) now key ≡ none
  pub get_delete_other :
      (s : store.State) (now : ℕ) (key asked : String)
      → key ≢ asked
      → store.get (store.delete s key) now asked ≡ store.get s now asked
  pub get_flush :
      (s : store.State) (now : ℕ) (key : String) → store.get (store.flush s) now key ≡ none

-- The bytes of an answer, if it is bytes.
abbrev pub bytes_in : Option Item → Option String
bytes_in (some (bytes b)) = some b
bytes_in (some other) = none
bytes_in none = none

twice :
    (b : Bool) (o p : Option String) → (if b then or_in o (or_in o p) else or_in o p) ≡ or_in o p
twice false o p = refl
twice true none p = refl
twice true (some x) p = refl

pub or_in-none : (o : Option String) → or_in o none ≡ o
or_in-none none = refl
or_in-none (some x) = refl

module _ (store : Store) (s : store.State) (now : ℕ) where
  abbrev pub cached : String → Option String
  cached key = bytes_in (store.get s now key)

  -- The keys for which the cache has no bytes, in order.
  unfoldable pub absent : List String → List String
  absent [] = []
  absent (k ∷ ks) = let rest = absent ks in elim (cached k) [ none ↦ k ∷ rest | some b ↦ rest ]

  note_found :
      (k key : String) (r : GetResult)
      → lookup k (note_item key (store.get s now key) r).found
        ≡ (if key == k then or_in (cached key) (lookup k r.found) else lookup k r.found)
  note_found k key r = go (store.get s now key)
    where
      go :
          (o : Option Item)
          → lookup k (note_item key o r).found
            ≡ (if key == k then or_in (bytes_in o) (lookup k r.found) else lookup k r.found)
      go none = ground arith
      go (some other) = ground arith
      go (some (bytes b)) = ground (arith, lookup-insert key k b r.found)

  note_missing :
      (key : String) (ks : List String) (r : GetResult)
      → (note_item key (store.get s now key) r).missing_keys ++ absent ks
        ≡ r.missing_keys ++ absent (key ∷ ks)
  unfolding absent
  note_missing key ks r = go (store.get s now key)
    where
      go :
          (o : Option Item)
          → (note_item key o r).missing_keys ++ absent ks
            ≡ r.missing_keys ++ (elim (bytes_in o) [ none ↦ key ∷ absent ks | some b ↦ absent ks ])
      go none = append_assoc r.missing_keys (key ∷ []) (absent ks)
      go (some other) = append_assoc r.missing_keys (key ∷ []) (absent ks)
      go (some (bytes b)) = refl

  get_each_found :
      (k : String) (keys : List String) (r : GetResult)
      → lookup k (get_each store s now keys r).found
        ≡ (if is_in k keys then or_in (cached k) (lookup k r.found) else lookup k r.found)
  unfolding get_each
  get_each_found k [] r = refl
  get_each_found k (key ∷ keys) r =
      get_each_found k keys (note_item key (store.get s now key) r)
      ∙ ap (λ o. if is_in k keys then or_in (cached k) o else o) (note_found k key r)
      ∙ rest (Bool-cases (key == k))
    where
      rest :
          ((key == k) ≡ true) ⊎ ((key == k) ≡ false)
          → (if is_in k keys
              then or_in
                  (cached k)
                  (if key == k then or_in (cached key) (lookup k r.found) else lookup k r.found)
              else (if key == k then or_in (cached key) (lookup k r.found) else lookup k r.found))
            ≡ (if is_in k (key ∷ keys)
                then or_in (cached k) (lookup k r.found)
                else lookup k r.found)
      rest (inl e) =
          rw (e, (string_eq.same_iff key k).0 e)
            (twice (is_in k keys) (cached k) (lookup k r.found))
      rest (inr e) = rw e refl

  get_each_missing :
      (keys : List String) (r : GetResult)
      → (get_each store s now keys r).missing_keys ≡ r.missing_keys ++ absent keys
  unfolding get_each absent
  get_each_missing [] r = sym (append-nil r.missing_keys)
  get_each_missing (key ∷ keys) r =
      get_each_missing keys (note_item key (store.get s now key) r) ∙ note_missing key keys r

  -- `Get` finds the asked keys that the cache has bytes for, with these bytes, and names the
  -- others in the order of the question.
  pub get_lem :
      (keys : List String)
      → ((k : String)
          → lookup k (get store s now keys).found ≡ (if is_in k keys then cached k else none))
        × ((get store s now keys).missing_keys ≡ absent keys)
  unfolding get lookup
  get_lem keys = (
    (λ k.
        get_each_found k keys (record { found = []; missing_keys = [] })
        ∙ rw (or_in-none (cached k)) refl),
    get_each_missing keys _,
  )

-- After `Set`, until the time is over, the cache has the new entries and what it had before.
pub get-set :
    (store : Store) (laws : IsGoCache store) (s : store.State) (now later : ℕ)
    (entries : Map String String) (ttl : ℤ) (k : String)
    → IsGoMap entries
    → pos 0 <ℤ ttl
    → now ≤ later
    → later ≤ now + pos_part ttl
    → bytes_in (store.get (set store s now entries ttl) later k)
      ≡ or_in (lookup k entries) (bytes_in (store.get s later k))
unfolding set lookup
get-set store laws s now later [] ttl k m p a b = refl
get-set store laws s now later ((j, v) ∷ entries) ttl k m p a b =
    get-set store laws (store.set s now j (bytes v) ttl) now later entries ttl k m.1 p a b
    ∙ step (Bool-cases (j == k))
  where
    step :
        ((j == k) ≡ true) ⊎ ((j == k) ≡ false)
        → or_in (lookup k entries) (bytes_in (store.get (store.set s now j (bytes v) ttl) later k))
          ≡ or_in (if j == k then some v else lookup k entries) (bytes_in (store.get s later k))
    step (inl e) =
        let jk = (string_eq.same_iff j k).0 e in
        rw (e, ← jk, lookup_absent j entries m.0, laws.get_set s now later j (bytes v) ttl p a b)
          refl
    step (inr e) =
        rw
          (
            e,
            laws.get_set_other s now later j k (bytes v) ttl
                (λ q. cc (e, (string_eq.same_iff j k).1 q)),
          )
          refl
