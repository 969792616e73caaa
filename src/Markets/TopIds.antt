-- ===== src/Markets/TopIds.antt =====
-- coingecko_markets/top_ids.go: the ids of the top tokens, kept by page and ranked on demand.
-- The lock makes each method one step.
pub mod Ranking
pub mod Bound
pub mod Fresh
use market_proxy.Prelude.{
  ℕ, zero, suc, ◌+◌, String, Bool, true, false, ◌||◌, Option, none, some, List, [], ◌∷◌, ◌++◌, map,
  ltb, ◌==◌, string_eq, if◌then◌else◌, length, take,
}
use market_proxy.Prelude.Int.{ℤ, pos, pos_part, ltb_ℤ, leb_ℤ, int_eq}
use market_proxy.Prelude.Maps.{Map, lookup, insert}
use market_proxy.Json.{Json}
use market_proxy.Markets.Data.{PageData, extract_token_ids}

pub record TopIdsManager : Type 0 where
  pub page_to_ids : Map ℤ (List String)
  pub top_ids : List String
  pub dirty : Bool

unfoldable pub new_top_ids_manager : TopIdsManager
new_top_ids_manager = record { page_to_ids = []; top_ids = []; dirty = false }

unfoldable pub update_page_ids : ℤ → List String → TopIdsManager → TopIdsManager
update_page_ids page token_ids t = record t {
  page_to_ids = insert page token_ids t.page_to_ids;
  dirty = true;
}

module _ {F : Type 0} (unmarshal : String → Option (Json F)) where
  unfoldable pub store_pages : List PageData → Map ℤ (List String) → Map ℤ (List String)
  store_pages [] m = m
  store_pages (p ∷ ps) m = store_pages ps (insert p.page (extract_token_ids unmarshal p.items) m)

  unfoldable pub update_pages_from_page_data : List PageData → TopIdsManager → TopIdsManager
  unfolding store_pages
  update_pages_from_page_data pages t = record t {
    page_to_ids = store_pages pages t.page_to_ids;
    dirty = true;
  }

-- The highest page number, from 0.
unfoldable pub max_page : ℤ → Map ℤ (List String) → ℤ
max_page top [] = top
max_page top ((page, ids) ∷ m) = max_page (if ltb_ℤ top page then page else top) m

-- The inner loop of the rebuild: `seen` is `seenIds`, and `top` is `newTopIds`.
unfoldable pub add_unseen :
    ℕ → List String → Map String ℕ → List String → Map String ℕ × List String
add_unseen page [] seen top = (seen, top)
add_unseen page (id ∷ ids) seen top = elim (lookup id seen) [
  | some first ↦ add_unseen page ids seen top
  | none ↦ add_unseen page ids (insert id page seen) (top ++ id ∷ [])
]

abbrev pub ids_of_page : ℕ → Map ℤ (List String) → List String
ids_of_page page m = elim (lookup (pos page) m) [ none ↦ [] | some ids ↦ ids ]

-- The outer loop, with the pages that are left.
unfoldable pub add_pages : ℕ → ℕ → Map ℤ (List String) → Map String ℕ → List String → List String
unfolding add_unseen
add_pages zero page m seen top = top
add_pages (suc left) page m seen top =
    let (seen', top') = add_unseen page (ids_of_page page m) seen top in
    add_pages left (page + 1) m seen' top'

-- `rebuildTopIds`. Without pages the highest page is 0, and the loops add nothing.
unfoldable pub rebuild : Map ℤ (List String) → List String
unfolding add_pages max_page
rebuild m = add_pages (pos_part (max_page (pos 0) m)) 1 m [] []

unfoldable pub refresh : TopIdsManager → TopIdsManager
unfolding rebuild
refresh t = if t.dirty then record t { top_ids = rebuild t.page_to_ids; dirty = false } else t

unfoldable pub limited : ℤ → List String → List String
limited limit ids =
    if leb_ℤ limit (pos 0) || ltb_ℤ (pos (length ids)) limit then ids else take (pos_part limit) ids

unfoldable pub get_top_ids : ℤ → TopIdsManager → List String × TopIdsManager
unfolding refresh limited
get_top_ids limit t = let t' = refresh t in (limited limit t'.top_ids, t')

unfoldable pub get_page_ids : ℤ → TopIdsManager → List String
get_page_ids page t = elim (lookup page t.page_to_ids) [ none ↦ [] | some ids ↦ ids ]

abbrev keys_of : Map ℤ (List String) → List ℤ
keys_of [] = []
keys_of ((page, ids) ∷ m) = page ∷ keys_of m

unfoldable pub get_available_pages : TopIdsManager → List ℤ
get_available_pages t = keys_of t.page_to_ids

abbrev count_ids : Map ℤ (List String) → ℕ
count_ids [] = 0
count_ids ((page, ids) ∷ m) = length ids + count_ids m

unfoldable pub get_total_token_count : TopIdsManager → ℕ
get_total_token_count t = if t.dirty then count_ids t.page_to_ids else length t.top_ids

unfoldable pub clear : TopIdsManager → TopIdsManager
clear t = record { page_to_ids = []; top_ids = []; dirty = false }

unfoldable pub get_stats : TopIdsManager → ℕ × ℕ × Bool
get_stats t = (length t.page_to_ids, length t.top_ids, t.dirty)
