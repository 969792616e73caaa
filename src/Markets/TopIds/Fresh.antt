-- ===== src/Markets/TopIds/Fresh.antt =====
-- The cached ranking is that of the pages, whenever it is not marked dirty.
use market_proxy.Prelude.{
  ℕ, String, ◌≡◌, ◌≢◌, refl, ap, sym, ◌∙◌, ◌⊎◌, true, ◌↔◌, inl, inr, false, Option, List, string_eq,
  if◌then◌else◌, arith, In, Pairs, Bool-cases, length, take, take_all,
}
use market_proxy.Prelude.Int.{ℤ, pos, pos_part, leb_ℤ, ltb_ℤ, negsuc}
use market_proxy.Json.{Json}
use market_proxy.Markets.Data.{PageData}
use market_proxy.Markets.TopIds.{
  TopIdsManager, new_top_ids_manager, update_page_ids, update_pages_from_page_data, max_page,
  rebuild, refresh, limited, get_top_ids, clear,
}
use market_proxy.Markets.TopIds.Bound.{IsLastPage, max_page-IsLastPage, ranked_to_last}
use market_proxy.Markets.TopIds.Ranking.{dedup, ranked, add_pages-eq-dedup, dedup_apart, In-dedup}

-- The pages in the order of their numbers, from 1 to the highest.
abbrev pub all_ranked : TopIdsManager → List String
all_ranked t = ranked (pos_part (max_page (pos 0) t.page_to_ids)) 1 t.page_to_ids

-- The invariant between two calls.
abbrev pub IsFresh : TopIdsManager → Type 0
IsFresh t = (t.dirty ≡ true) ⊎ (t.top_ids ≡ dedup (all_ranked t))

refresh_fresh : (t : TopIdsManager) → IsFresh t → (refresh t).top_ids ≡ dedup (all_ranked t)
unfolding refresh rebuild
refresh_fresh t h = elim (Bool-cases t.dirty) [
  | inl e ↦ rw e (add_pages-eq-dedup _ t.page_to_ids)
  | inr e ↦ rw e (elim h [ inl d ↦ absurd cc | inr q ↦ q ])
]

refresh_pages : (t : TopIdsManager) → (refresh t).page_to_ids ≡ t.page_to_ids
unfolding refresh
refresh_pages t = elim (Bool-cases t.dirty) [ inl e ↦ rw e refl | inr e ↦ rw e refl ]

refresh-IsFresh :
    (t : TopIdsManager) → IsFresh t → (refresh t).top_ids ≡ dedup (all_ranked (refresh t))
refresh-IsFresh t h =
    refresh_fresh t h
    ∙ ap (λ m. dedup (ranked (pos_part (max_page (pos 0) m)) 1 m)) (sym (refresh_pages t))

-- Every method leaves a manager whose ranking, unless marked dirty, is that of its pages.
pub methods-IsFresh :
    {F : Type 0} (unmarshal : String → Option (Json F)) (t : TopIdsManager) (page limit : ℤ)
    (ids : List String) (pages : List PageData)
    → IsFresh t
    → IsFresh new_top_ids_manager
      × IsFresh (update_page_ids page ids t)
      × IsFresh (update_pages_from_page_data unmarshal pages t)
      × IsFresh (get_top_ids limit t).1
      × IsFresh (clear t)
unfolding new_top_ids_manager update_page_ids update_pages_from_page_data get_top_ids clear rebuild
    dedup ranked max_page
methods-IsFresh unmarshal t page limit ids pages h =
    (inr refl, inl refl, inl refl, inr (refresh-IsFresh t h), inr refl)

limited_rest :
    (limit : ℤ) (ids : List String)
    → leb_ℤ limit (pos 0) ≡ false
    → (if ltb_ℤ (pos (length ids)) limit then ids else take (pos_part limit) ids)
      ≡ take (pos_part limit) ids
limited_rest (pos n) ids e = ground (arith, take_all n ids)
limited_rest (negsuc n) ids e = absurd (ground arith)

limited_lem :
    (limit : ℤ) (ids : List String)
    → limited limit ids ≡ (if leb_ℤ limit (pos 0) then ids else take (pos_part limit) ids)
unfolding limited
limited_lem limit ids = elim (Bool-cases (leb_ℤ limit (pos 0))) [
  | inl e ↦ rw e refl
  | inr e ↦ rw (e, limited) (limited_rest limit ids e)
]

get_top_ids_of_all :
    (limit : ℤ) (t : TopIdsManager)
    → IsFresh t
    → (get_top_ids limit t).0 ≡ (
        if leb_ℤ limit (pos 0)
        then dedup (all_ranked t)
        else take (pos_part limit) (dedup (all_ranked t)))
unfolding get_top_ids
get_top_ids_of_all limit t h =
    ap (limited limit) (refresh_fresh t h) ∙ limited_lem limit (dedup (all_ranked t))

-- Whatever has been updated since, `GetTopIds` returns the first `limit` ids of the pages from 1
-- to `n` in order, each id counted where it stands first (all of them, where the limit is 0 or
-- less), for every `n` above which no page is kept: no page is missed.
pub get_top_ids_lem :
    (limit : ℤ) (t : TopIdsManager) (n : ℕ)
    → IsFresh t
    → IsLastPage n t.page_to_ids
    → (get_top_ids limit t).0 ≡ (
        if leb_ℤ limit (pos 0)
        then dedup (ranked n 1 t.page_to_ids)
        else take (pos_part limit) (dedup (ranked n 1 t.page_to_ids)))
get_top_ids_lem limit t n h last =
    rw
      (← ranked_to_last (pos_part (max_page (pos 0) t.page_to_ids)) n t.page_to_ids
        (max_page-IsLastPage (pos 0) t.page_to_ids) last)
      (get_top_ids_of_all limit t h)

-- No id is returned twice, and without a limit the ids are those of the pages.
pub get_top_ids_apart :
    (t : TopIdsManager)
    → IsFresh t
    → Pairs (λ a b. a ≢ b) (get_top_ids (pos 0) t).0
      × ((id : String) → In id (get_top_ids (pos 0) t).0 ↔ In id (all_ranked t))
get_top_ids_apart t h = rw (get_top_ids_of_all (pos 0) t h) (dedup_apart _, (λ id. In-dedup id _))
