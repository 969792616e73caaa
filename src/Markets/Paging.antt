-- ===== src/Markets/Paging.antt =====
-- coingecko_markets/paginated_fetcher.go: the pages of a tier are fetched one after the other.
--
-- `fetch_page` is the API client, and `on_page` the callback, if there is one; both pass on a state,
-- and so does the sleep between two pages.
pub mod Run
use market_proxy.Prelude.{
  ℕ, zero, suc, ◌+◌, ◌-◌, ◌*◌, String, Bool, true, false, Option, none, some, List, [], ◌∷◌, ◌++◌,
  ◌==◌, string_eq, if◌then◌else◌, ◌&&◌, length, flatten, map,
}
use market_proxy.Prelude.Int.{ℤ, pos, negsuc, ◌+ℤ◌, ◌-ℤ◌, ◌*ℤ◌, ltb_ℤ, leb_ℤ, pos_part}
use market_proxy.Prelude.Errors.{Error, wrapped, Result, ok, err}
use market_proxy.Markets.Data.{PageData}
use market_proxy.Markets.Params.{MarketsParams}

pub record PaginatedFetcher : Type 0 where
  pub page_from : ℤ
  pub page_to : ℤ
  pub per_page : ℤ
  pub request_delay : ℤ
  pub params : MarketsParams

abbrev pub default_per_page : ℤ
default_per_page = pos 250

abbrev pub default_request_delay : ℤ
default_request_delay = pos 2000

abbrev pub millisecond : ℤ
millisecond = pos 1_000_000

abbrev pub or_default : String → String → String
or_default s default = if s == "" then default else s

unfoldable pub new_paginated_fetcher : ℤ → ℤ → ℤ → MarketsParams → PaginatedFetcher
new_paginated_fetcher page_from page_to request_delay_ms params =
    let per_page = if leb_ℤ params.per_page (pos 0) then default_per_page else params.per_page in
    let delay =
      if leb_ℤ (pos 0) request_delay_ms then request_delay_ms else default_request_delay in
    record {
      page_from = page_from;
      page_to = page_to;
      per_page = per_page;
      request_delay = delay *ℤ millisecond;
      params = record params {
        currency = or_default params.currency "usd";
        order = or_default params.order "market_cap_desc";
        per_page = per_page;
      };
    }

-- The parameters of the request for a page.
abbrev pub page_params : PaginatedFetcher → ℤ → MarketsParams
page_params pf page = record pf.params { page = page; per_page = pf.per_page }

abbrev pub page_data : ℤ → List String → PageData
page_data page items = record { page = page; items = items }

-- `handlePagesError`: what has been fetched is returned in spite of the error. Its text is kept,
-- and not the error itself.
unfoldable pub handle_pages_error : Error → List PageData → Result (List PageData)
handle_pages_error e [] = err (wrapped "failed to fetch data" e)
handle_pages_error e (p ∷ ps) = ok (p ∷ ps)

module _ {S : Type 0} (fetch_page : MarketsParams → S → Result (List String) × S)
    (on_page : Option (PageData → S → S)) (sleep : ℤ → S → S) (pf : PaginatedFetcher) where
  abbrev pub notify : PageData → S → S
  notify p s = elim on_page [ none ↦ s | some f ↦ f p s ]

  unfoldable pub apply_delay_if_needed : ℤ → S → S
  apply_delay_if_needed page s =
      if ltb_ℤ page pf.page_to && ltb_ℤ (pos 0) pf.request_delay
      then sleep pf.request_delay s
      else s

  -- What a page's answer does: an error and an empty page end the loop.
  abbrev pub after_page :
      ℤ
      → List PageData
      → Result (List String) × S
      → (List PageData → S → Result (List PageData) × S)
      → Result (List PageData) × S
  after_page page all_pages (err e, s) go_on = (handle_pages_error e all_pages, s)
  after_page page all_pages (ok [], s) go_on = (ok all_pages, s)
  after_page page all_pages (ok (x ∷ xs), s) go_on =
      go_on (all_pages ++ page_data page (x ∷ xs) ∷ [])
        (apply_delay_if_needed page (notify (page_data page (x ∷ xs)) s))

  -- The loop, with the pages that are left.
  unfoldable pub fetch_pages_from : ℕ → ℤ → List PageData → S → Result (List PageData) × S
  fetch_pages_from zero page all_pages s = (ok all_pages, s)
  fetch_pages_from (suc left) page all_pages s =
      after_page page all_pages (fetch_page (page_params pf page) s)
        λ pages s'. fetch_pages_from left (page +ℤ pos 1) pages s'

  -- The fetch, with the capacity of its slice. `none` is the panic of `make` at a negative capacity, before the first request.
  -- A range of pages too long for the memory is left out.
  abbrev pub fetch_with_capacity : ℤ → S → Option (Result (List PageData) × S)
  fetch_with_capacity (pos n) s = some (fetch_pages_from n pf.page_from [] s)
  fetch_with_capacity (negsuc n) s = none

  -- `FetchPages`
  unfoldable pub fetch_pages : S → Option (Result (List PageData) × S)
  fetch_pages s = fetch_with_capacity (pf.page_to -ℤ pf.page_from +ℤ pos 1) s

abbrev pub items_of : List PageData → List String
items_of pages = flatten (map (λ (p : PageData). p.items) pages)

abbrev pub flat_result :
    {S : Type 0} → Option (Result (List PageData) × S) → Option (Result (List String) × S)
flat_result none = none
flat_result (some (ok pages, s)) = some (ok (items_of pages), s)
flat_result (some (err e, s)) = some (err e, s)

-- `FetchData`, without a callback, and with the panic of `FetchPages`.
unfoldable pub fetch_data :
    {S : Type 0}
    → (MarketsParams → S → Result (List String) × S)
    → (ℤ → S → S)
    → PaginatedFetcher
    → S
    → Option (Result (List String) × S)
fetch_data fetch_page sleep pf s = flat_result (fetch_pages fetch_page none sleep pf s)
