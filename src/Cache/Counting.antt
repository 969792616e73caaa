-- ===== src/Cache/Counting.antt =====
-- How many entries `Get` of cache/gocache.go finds.
use market_proxy.Prelude.{
  ℕ, suc, ◌+◌, String, ◌≡◌, ◌≢◌, refl, ap, ◌∙◌, Option, none, some, List, [], ◌∷◌, string_eq, arith,
  All, length,
}
use market_proxy.Prelude.Maps.{Map, lookup, insert, lookup-insert}
use market_proxy.Prelude.Sets.{IsDistinct}
use market_proxy.Cache.{Store, Item, bytes, other, GetResult, note_item, get_each, get}
use market_proxy.Cache.Laws.{bytes_in, cached, absent}

length-insert_new :
    (k v : String) (m : Map String String)
    → lookup k m ≡ none
    → length (insert k v m) ≡ suc (length m)
unfolding lookup insert
length-insert_new k v [] h = refl
length-insert_new k v ((j, w) ∷ m) h = ground (arith, length-insert_new k v m)

-- None of the keys is in the map.
abbrev IsNew : Map String String → List String → Type 0
IsNew m keys = All (λ k. lookup k m ≡ none) keys

IsNew-insert :
    (k v : String) (m : Map String String) (keys : List String)
    → All (λ j. k ≢ j) keys
    → IsNew m keys
    → IsNew (insert k v m) keys
IsNew-insert k v m [] a n = tt
IsNew-insert k v m (j ∷ js) a n = (
  lookup-insert k j v m ∙ ground (arith, string_eq.same_iff k j, a.0, n.0),
  IsNew-insert k v m js a.1 n.1,
)

module _ (store : Store) (s : store.State) (now : ℕ) where
  noted :
      (k : String) (o : Option Item) (b : String) (r : GetResult)
      → bytes_in o ≡ some b
      → (note_item k o r).found ≡ insert k b r.found
  noted k none b r h = absurd cc
  noted k (some other) b r h = absurd cc
  noted k (some (bytes c)) b r h = ap (λ x. insert k x r.found) (ground arith)

  absent-cons :
      (k : String) (keys : List String)
      → absent store s now (k ∷ keys) ≡ []
      → ((b : String) × (cached store s now k ≡ some b)) × (absent store s now keys ≡ [])
  unfolding absent
  absent-cons k keys h = go (cached store s now k) refl h
    where
      go :
          (o : Option String)
          → cached store s now k ≡ o
          → (elim o [ none ↦ k ∷ absent store s now keys | some b ↦ absent store s now keys ]) ≡ []
          → ((b : String) × (cached store s now k ≡ some b)) × (absent store s now keys ≡ [])
      go none e x = absurd cc
      go (some b) e x = ((b, e), x)

  length-get_each :
      (keys : List String) (r : GetResult)
      → IsDistinct keys
      → IsNew r.found keys
      → absent store s now keys ≡ []
      → length (get_each store s now keys r).found ≡ length r.found + length keys
  unfolding get_each
  length-get_each [] r d n h = omega arith
  length-get_each (k ∷ keys) r d n h =
      let ((b, e), rest) = absent-cons k keys h in
      let r' = note_item k (store.get s now k) r in
      let found = noted k (store.get s now k) b r e in
      let ih =
        length-get_each keys r' d.1 (rw found (IsNew-insert k b r.found keys d.0 n.1)) rest in
      omega (arith, ih, ap length found, length-insert_new k b r.found n.0)

  -- Distinct keys that are all cached are found one for one.
  pub length-found :
      (keys : List String)
      → IsDistinct keys
      → absent store s now keys ≡ []
      → length (get store s now keys).found ≡ length keys
  unfolding get lookup
  length-found keys d h =
      length-get_each keys (record { found = []; missing_keys = [] }) d (all_new keys) h
      ∙ omega arith
    where
      all_new : (ks : List String) → IsNew [] ks
      all_new [] = tt
      all_new (k ∷ ks) = (refl, all_new ks)
