-- ===== src/Cache/Examples.antt =====
-- Runs of the cache over a store that is a map.
use market_proxy.Prelude.{
  ℕ, ◌+◌, String, ◌≡◌, refl, true, false, none, List, [], ◌∷◌, string_eq, if◌then◌else◌, arith,
  different,
}
use market_proxy.Prelude.Sets.{is_in}
use market_proxy.Prelude.Int.{pos}
use market_proxy.Prelude.Maps.{Map, lookup, or_in, IsGoMap}
use market_proxy.Prelude.Errors.{msg, Result, ok, err}
use market_proxy.Cache.{bytes, set, get_or_load}
use market_proxy.Cache.Laws.{cached, absent}
use market_proxy.Cache.MapStore.{Entry, map_store, map_store-IsGoCache}
use market_proxy.Cache.Loading.{get_or_load_miss}
use market_proxy.Cache.Again.{get_or_load_again}

abbrev one_entry : Map String Entry
one_entry = ("a", (bytes "1", none)) ∷ []

-- Loads the same two entries whatever is asked, and counts the calls.
abbrev two_entries : Map String String
two_entries = ("b", "2") ∷ ("c", "3") ∷ []

abbrev loader : ℕ → List String → Result (Map String String) × ℕ
loader n keys = (ok two_entries, n + 1)

abbrev broken : ℕ → List String → Result (Map String String) × ℕ
broken n keys = (err (msg "no network"), n + 1)

two_entries-IsGoMap : IsGoMap two_entries
two_entries-IsGoMap = ((different "b" "c" refl, tt), (tt, tt))

get_or_load_miss_example :
    (m : Map String String) × (get_or_load map_store loader one_entry 5 0
        ("a" ∷ "b" ∷ [])
        true
        (pos 10)
      ≡ (ok m, set map_store one_entry 5 two_entries (pos 10), 1))
    × ((k : String)
        → lookup k m ≡ (
            if is_in k ("a" ∷ "b" ∷ [])
            then or_in (lookup k two_entries) (cached map_store one_entry 5 k)
            else lookup k two_entries))
unfolding absent lookup
get_or_load_miss_example =
    get_or_load_miss map_store loader one_entry 5 0 ("a" ∷ "b" ∷ []) true (pos 10) "b" []
      two_entries 1 refl refl two_entries-IsGoMap

get_or_load_again_example :
    (m : Map String String) × (get_or_load map_store broken
        (set map_store one_entry 5 two_entries (pos 10))
        15
        0
        ("c" ∷ [])
        false
        (pos 10)
      ≡ (ok m, set map_store one_entry 5 two_entries (pos 10), 0))
    × ((k : String) → lookup k m ≡ (if is_in k ("c" ∷ []) then lookup k two_entries else none))
unfolding lookup
get_or_load_again_example =
    get_or_load_again map_store map_store-IsGoCache one_entry 5 15 two_entries (pos 10)
      two_entries-IsGoMap (omega arith) (omega arith) (omega arith) broken 0 ("c" ∷ []) false
      (pos 10) (("3", refl), tt)
