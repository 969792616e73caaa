-- ===== src/Markets/Examples.antt =====
-- Runs of the code of coingecko_markets on concrete inputs.
use market_proxy.Prelude.{inl, refl, arith, String, ◌≡◌, true, Option, none, [], ◌∷◌}
use market_proxy.Prelude.Int.{pos}
use market_proxy.Prelude.Maps.{lookup}
use market_proxy.Prelude.Sets.{without}
use market_proxy.Json.{Json}
use market_proxy.Markets.TopIds.{
  TopIdsManager, new_top_ids_manager, update_page_ids, update_pages_from_page_data, max_page,
  get_top_ids, clear,
}
use market_proxy.Markets.TopIds.Bound.{IsLastPage}
use market_proxy.Markets.TopIds.Ranking.{dedup, ranked}
use market_proxy.Markets.TopIds.Fresh.{IsFresh, methods-IsFresh, get_top_ids_lem}

-- Page 2 came first, and repeats an id of page 1.
abbrev two_pages : TopIdsManager
two_pages = record {
  page_to_ids = (pos 2, "tether" ∷ "bitcoin" ∷ []) ∷ (pos 1, "bitcoin" ∷ "ethereum" ∷ []) ∷ [];
  top_ids = [];
  dirty = true;
}

two_pages-IsFresh : IsFresh two_pages
two_pages-IsFresh = inl refl

abbrev no_json : String → Option (Json Unit)
no_json s = none

methods-IsFresh_example :
    IsFresh new_top_ids_manager
    × IsFresh (update_page_ids (pos 3) ("status" ∷ []) two_pages)
    × IsFresh (update_pages_from_page_data no_json [] two_pages)
    × IsFresh (get_top_ids (pos 2) two_pages).1
    × IsFresh (clear two_pages)
methods-IsFresh_example =
    methods-IsFresh no_json two_pages (pos 3) (pos 2) ("status" ∷ []) [] two_pages-IsFresh

two_pages-IsLastPage : IsLastPage 2 two_pages.page_to_ids
unfolding lookup
two_pages-IsLastPage page ids e = ground arith

get_top_ids_lem_example : (get_top_ids (pos 2) two_pages).0 ≡ "bitcoin" ∷ "ethereum" ∷ []
unfolding dedup ranked without max_page lookup
get_top_ids_lem_example = get_top_ids_lem (pos 2) two_pages 2 two_pages-IsFresh two_pages-IsLastPage
