-- ===== src/Markets/Paging/Run.antt =====
-- Which pages `FetchPages` of coingecko_markets/paginated_fetcher.go returns.
use market_proxy.Prelude.{ℕ, ◌≤◌, none, some, String, ◌≡◌, ◌≢◌, Option, List, [], ◌∷◌, ◌++◌, length}
use market_proxy.Prelude.Int.{ℤ, pos, pos_part, ◌≤ℤ◌, ◌<ℤ◌, ◌+ℤ◌, ◌-ℤ◌}
use market_proxy.Prelude.Errors.{Error, wrapped, Result, ok, err}
use market_proxy.Markets.Data.{PageData}
use market_proxy.Markets.Params.{MarketsParams}
use market_proxy.Markets.Paging.{
  PaginatedFetcher, page_params, page_data, notify, apply_delay_if_needed,
}

module _ {S : Type 0} (fetch_page : MarketsParams → S → Result (List String) × S)
    (on_page : Option (PageData → S → S)) (sleep : ℤ → S → S) (pf : PaginatedFetcher) where
  -- The client's answer for a page.
  abbrev pub reply : ℤ → S → Result (List String) × S
  reply page s = fetch_page (page_params pf page) s

  -- The state when the next page is asked for.
  abbrev pub gone_on : ℤ → List String → S → S
  gone_on page items s =
      apply_delay_if_needed fetch_page on_page sleep pf page
        (notify fetch_page on_page sleep pf (page_data page items) s)

  -- The steps of a fetch: `Run page s pages page' s'` if the fetch, at `page` in state `s`, has
  -- brought `pages`, none of them empty, when it asks for `page'` in state `s'`.
  pub data Run : ℤ → S → List PageData → ℤ → S → Type 0 where
    start : {page : ℤ} {s : S} → Run page s [] page s
    step :
        {page page' : ℤ} {s s1 s' : S} {x : String} {xs : List String} {pages : List PageData}
        → reply page s ≡ (ok (x ∷ xs), s1)
        → Run (page +ℤ pos 1) (gone_on page (x ∷ xs) s1) pages page' s'
        → Run page s (page_data page (x ∷ xs) ∷ pages) page' s'

  -- How a fetch ends that has brought `taken` pages of `left`, `all` with those before: every page
  -- has been asked for, or there is an empty page, or an error.
  pub data Ends (left taken : ℕ) (all : List PageData) (page : ℤ) (s : S)
      : Result (List PageData) × S → Type 0 where
    complete : taken ≡ left → Ends left taken all page s (ok all, s)
    empty : {s' : S} → reply page s ≡ (ok [], s') → Ends left taken all page s (ok all, s')
    failed :
        {e : Error} {s' : S}
        → all ≡ []
        → reply page s ≡ (err e, s')
        → Ends left taken all page s (err (wrapped "failed to fetch data" e), s')
    partial :
        {e : Error} {s' : S}
        → all ≢ []
        → reply page s ≡ (err e, s')
        → Ends left taken all page s (ok all, s')

  pub record Fetched (left : ℕ) (page : ℤ) (before : List PageData) (s : S)
      (outcome : Result (List PageData) × S) : Type 0 where
    pub pages : List PageData
    pub next_page : ℤ
    pub last : S
    pub run : Run page s pages next_page last
    pub bounded : length pages ≤ left
    pub ends : Ends left (length pages) (before ++ pages) next_page last outcome

  -- The number of pages in the range.
  abbrev pub range_length : ℤ
  range_length = pf.page_to -ℤ pf.page_from +ℤ pos 1

  -- How a call of `FetchPages` for `n` pages goes on: it panics, or it fetches.
  abbrev pub Panics : ℤ → Option (Result (List PageData) × S) → Type 0
  Panics n o = (n <ℤ pos 0) × (o ≡ none)

  abbrev pub Fetches : S → ℤ → Option (Result (List PageData) × S) → Type 0
  Fetches s n o =
      (pos 0 ≤ℤ n)
      × ((outcome : Result (List PageData) × S) × (o ≡ some outcome)
          × Fetched (pos_part n) pf.page_from [] s outcome)
