-- ===== src/Markets/TopIds/Bound.antt =====
-- The rebuild of top_ids.go misses no page: the highest number it finds is above all of them.
use market_proxy.Prelude.{
  ℕ, zero, suc, ◌+◌, ◌≤◌, ◌<◌, String, ◌≡◌, refl, ap, sym, ◌∙◌, some, List, [], ◌∷◌, ◌++◌, ◌==◌,
  if◌then◌else◌, arith, Bool-cases, Option-cases, inl, inr,
}
use market_proxy.Prelude.Int.{ℤ, pos, pos_part, int_eq, ltb_ℤ, negsuc}
use market_proxy.Prelude.Maps.{Map, lookup}
use market_proxy.Markets.TopIds.{max_page, ids_of_page}
use market_proxy.Markets.TopIds.Ranking.{ranked}

-- No page with a number above `n` is kept.
abbrev pub IsLastPage : ℕ → Map ℤ (List String) → Type 0
IsLastPage n m = (page : ℕ) (ids : List String) → lookup (pos page) m ≡ some ids → page ≤ n

higher : (top page : ℤ) → pos_part top ≤ pos_part (if ltb_ℤ top page then page else top)
higher (pos a) (pos b) = ground arith
higher (pos a) (negsuc b) = ground arith
higher (negsuc a) page = omega arith

higher_page :
    (top : ℤ) (page : ℕ) → page ≤ pos_part (if ltb_ℤ top (pos page) then pos page else top)
higher_page (pos a) page = ground arith
higher_page (negsuc a) page = ground arith

max_page-top : (top : ℤ) (m : Map ℤ (List String)) → pos_part top ≤ pos_part (max_page top m)
unfolding max_page
max_page-top top [] = omega arith
max_page-top top ((page, ids) ∷ m) =
    omega (arith, higher top page, max_page-top (if ltb_ℤ top page then page else top) m)

max_page-lookup :
    (top : ℤ) (m : Map ℤ (List String)) (page : ℕ) (ids : List String)
    → lookup (pos page) m ≡ some ids
    → page ≤ pos_part (max_page top m)
unfolding max_page lookup
max_page-lookup top [] page ids e = absurd cc
max_page-lookup top ((p, found) ∷ m) page ids e = elim (Bool-cases (p == pos page)) [
  | inl same ↦
      (let q = (int_eq.same_iff p (pos page)).0 same in
        rw q (
          omega (
            arith,
            higher_page top page,
            max_page-top (if ltb_ℤ top (pos page) then pos page else top) m,
          )))
  | inr other ↦
      max_page-lookup (if ltb_ℤ top p then p else top) m page ids
        (sym (ap (λ b. if b then some found else lookup (pos page) m) other) ∙ e)
]

pub max_page-IsLastPage :
    (top : ℤ) (m : Map ℤ (List String)) → IsLastPage (pos_part (max_page top m)) m
max_page-IsLastPage top m page ids e = max_page-lookup top m page ids e

ids_beyond :
    (n page : ℕ) (m : Map ℤ (List String)) → IsLastPage n m → n < page → ids_of_page page m ≡ []
ids_beyond n page m h lt = elim (Option-cases (lookup (pos page) m)) [
  | inl e ↦ rw (ids_of_page, e) refl
  | inr (ids, e) ↦ absurd (omega (arith, h page ids e))
]

ranked_beyond :
    (left n page : ℕ) (m : Map ℤ (List String))
    → IsLastPage n m
    → n < page
    → ranked left page m ≡ []
unfolding ranked
ranked_beyond zero n page m h lt = refl
ranked_beyond (suc left) n page m h lt =
    rw (ids_beyond n page m h lt) (ranked_beyond left n (page + 1) m h (omega arith))

-- Any number of pages that reaches the last one gives the same ranking.
ranked_agree :
    (a b n k page : ℕ) (m : Map ℤ (List String))
    → IsLastPage n m
    → IsLastPage k m
    → n < page + a
    → k < page + b
    → ranked a page m ≡ ranked b page m
unfolding ranked
ranked_agree zero b n k page m h h' lt lt' = sym (ranked_beyond b n page m h (omega arith))
ranked_agree (suc a) zero n k page m h h' lt lt' = ranked_beyond (suc a) k page m h' (omega arith)
ranked_agree (suc a) (suc b) n k page m h h' lt lt' =
    ap (λ ids. ids_of_page page m ++ ids)
      (ranked_agree a b n k (page + 1) m h h' (omega arith) (omega arith))

pub ranked_to_last :
    (a b : ℕ) (m : Map ℤ (List String))
    → IsLastPage a m
    → IsLastPage b m
    → ranked a 1 m ≡ ranked b 1 m
ranked_to_last a b m h h' = ranked_agree a b a b 1 m h h' (omega arith) (omega arith)
