-- ===== src/Markets/TopIds/Ranking.antt =====
-- The rebuild of top_ids.go ranks the ids of all pages, page by page, and keeps the first
-- occurrence of each.
use mathlib.Core.List.{append_assoc, append-nil}
use market_proxy.Prelude.{
  ℕ, zero, suc, ◌+◌, String, ◌≡◌, ◌≢◌, refl, ap, sym, ◌∙◌, ◌↔◌, inl, inr, none, some, List, [], ◌∷◌,
  ◌++◌, ◌==◌, string_eq, arith, In, All, Pairs, Bool-cases, Option-cases, different,
}
use market_proxy.Prelude.Sets.{without, In-without}
use market_proxy.Prelude.Int.{ℤ, int_eq}
use market_proxy.Prelude.Maps.{Map, lookup, insert, lookup-insert}
use market_proxy.Markets.TopIds.{add_unseen, add_pages, ids_of_page}

-- The list without repetitions: each id stands where it stood first.
unfoldable pub dedup : List String → List String
dedup [] = []
dedup (x ∷ xs) = x ∷ without x (dedup xs)

-- The ids of the pages from `page` on, `left` of them.
unfoldable pub ranked : ℕ → ℕ → Map ℤ (List String) → List String
ranked zero page m = []
ranked (suc left) page m = ids_of_page page m ++ ranked left (page + 1) m

pub In-dedup : (y : String) (xs : List String) → In y (dedup xs) ↔ In y xs
unfolding dedup
In-dedup y [] = ((λ h. h), (λ h. h))
In-dedup y (x ∷ xs) =
    let ih = In-dedup y xs in
    let w = In-without x y (dedup xs) in
    (
      (λ h. elim h [ inl p ↦ inl p | inr q ↦ inr (ih.0 (w.0 q).1) ]),
      (λ h. elim h [
        | inl p ↦ inl p
        | inr q ↦ elim (Bool-cases (x == y)) [
          | inl e ↦ inl ((string_eq.same_iff x y).0 e)
          | inr e ↦ inr (w.1 (different x y e, ih.1 q))
        ]
      ]),
    )

All-without {κ} :
    (P : String → Type κ) (x : String) (ys : List String) → All P ys → All P (without x ys)
unfolding without
All-without P x [] h = tt
All-without P x (y ∷ ys) h = elim (Bool-cases (x == y)) [
  | inl e ↦ rw e (All-without P x ys h.1)
  | inr e ↦ rw e (h.0, All-without P x ys h.1)
]

without_apart : (x : String) (ys : List String) → All (λ y. x ≢ y) (without x ys)
unfolding without
without_apart x [] = tt
without_apart x (y ∷ ys) = elim (Bool-cases (x == y)) [
  | inl e ↦ rw e (without_apart x ys)
  | inr e ↦ rw e (different x y e, without_apart x ys)
]

Pairs-without :
    (x : String) (ys : List String) → Pairs (λ a b. a ≢ b) ys → Pairs (λ a b. a ≢ b) (without x ys)
unfolding without
Pairs-without x [] h = tt
Pairs-without x (y ∷ ys) h = elim (Bool-cases (x == y)) [
  | inl e ↦ rw e (Pairs-without x ys h.1)
  | inr e ↦ rw e (All-without (λ b. y ≢ b) x ys h.0, Pairs-without x ys h.1)
]

pub dedup_apart : (xs : List String) → Pairs (λ a b. a ≢ b) (dedup xs)
unfolding dedup
dedup_apart [] = tt
dedup_apart (x ∷ xs) = (without_apart x (dedup xs), Pairs-without x (dedup xs) (dedup_apart xs))

-- The ids that a map does not know.
unseen : Map String ℕ → List String → List String
unseen seen [] = []
unseen seen (x ∷ xs) =
    let rest = unseen seen xs in elim (lookup x seen) [ some p ↦ rest | none ↦ x ∷ rest ]

unseen-insert :
    (x : String) (p : ℕ) (seen : Map String ℕ) (ys : List String)
    → unseen (insert x p seen) ys ≡ unseen seen (without x ys)
unfolding unseen without
unseen-insert x p seen [] = refl
unseen-insert x p seen (y ∷ ys) =
    ground (arith, lookup-insert x y p seen, unseen-insert x p seen ys)

unseen-without :
    (x : String) (p : ℕ) (seen : Map String ℕ) (ys : List String)
    → lookup x seen ≡ some p
    → unseen seen (without x ys) ≡ unseen seen ys
unfolding unseen without
unseen-without x p seen [] h = refl
unseen-without x p seen (y ∷ ys) h =
    ground (arith, unseen-without x p seen ys, string_eq.same_iff x y)

add_unseen_new :
    (page : ℕ) (id : String) (ids : List String) (seen : Map String ℕ) (top : List String)
    → lookup id seen ≡ none
    → add_unseen page (id ∷ ids) seen top
      ≡ add_unseen page ids (insert id page seen) (top ++ id ∷ [])
unfolding add_unseen
add_unseen_new page id ids seen top e = rw (e, add_unseen) refl

add_unseen_old :
    (page : ℕ) (id : String) (ids : List String) (seen : Map String ℕ) (top : List String) (p : ℕ)
    → lookup id seen ≡ some p
    → add_unseen page (id ∷ ids) seen top ≡ add_unseen page ids seen top
unfolding add_unseen
add_unseen_old page id ids seen top p e = rw (e, add_unseen) refl

unseen_new :
    (x : String) (seen : Map String ℕ) (xs : List String)
    → lookup x seen ≡ none
    → unseen seen (x ∷ xs) ≡ x ∷ unseen seen xs
unfolding unseen
unseen_new x seen xs e = rw (e, unseen) refl

unseen_old :
    (x : String) (seen : Map String ℕ) (xs : List String) (p : ℕ)
    → lookup x seen ≡ some p
    → unseen seen (x ∷ xs) ≡ unseen seen xs
unfolding unseen
unseen_old x seen xs p e = rw (e, unseen) refl

-- What the ranking becomes when the ids `ys` follow.
ranked_with : Map String ℕ × List String → List String → List String
ranked_with p ys = p.1 ++ unseen p.0 (dedup ys)

-- The inner loop, with the ids that are still to come.
add_unseen_then :
    (page : ℕ) (ids : List String) (seen : Map String ℕ) (top ys : List String)
    → ranked_with (add_unseen page ids seen top) ys ≡ top ++ unseen seen (dedup (ids ++ ys))
unfolding add_unseen dedup ranked_with
add_unseen_then page [] seen top ys = refl
add_unseen_then page (id ∷ ids) seen top ys =
    let rest = dedup (ids ++ ys) in
    elim (Option-cases (lookup id seen)) [
      | inl e ↦
          ap (λ p. ranked_with p ys) (add_unseen_new page id ids seen top e)
          ∙ add_unseen_then page ids (insert id page seen) (top ++ id ∷ []) ys
          ∙ append_assoc top (id ∷ []) (unseen (insert id page seen) rest)
          ∙ ap (λ t. top ++ id ∷ t) (unseen-insert id page seen rest)
          ∙ ap (λ t. top ++ t) (sym (unseen_new id seen (without id rest) e))
      | inr (p, e) ↦
          ap (λ p. ranked_with p ys) (add_unseen_old page id ids seen top p e)
          ∙ add_unseen_then page ids seen top ys
          ∙ ap (λ t. top ++ t) (sym (unseen-without id p seen rest e))
          ∙ ap (λ t. top ++ t) (sym (unseen_old id seen (without id rest) p e))
    ]

add_pages_lem :
    (left page : ℕ) (m : Map ℤ (List String)) (seen : Map String ℕ) (top : List String)
    → add_pages left page m seen top ≡ top ++ unseen seen (dedup (ranked left page m))
unfolding add_pages ranked dedup unseen ranked_with
add_pages_lem zero page m seen top = sym (append-nil top)
add_pages_lem (suc left) page m seen top =
    let (seen', top') = add_unseen page (ids_of_page page m) seen top in
    add_pages_lem left (page + 1) m seen' top'
    ∙ add_unseen_then page (ids_of_page page m) seen top (ranked left (page + 1) m)

unseen-nil : (xs : List String) → unseen [] xs ≡ xs
unfolding unseen lookup
unseen-nil [] = refl
unseen-nil (x ∷ xs) = ap (λ t. x ∷ t) (unseen-nil xs)

-- The loops of the rebuild, over n pages.
pub add_pages-eq-dedup :
    (n : ℕ) (m : Map ℤ (List String)) → add_pages n 1 m [] [] ≡ dedup (ranked n 1 m)
add_pages-eq-dedup n m = add_pages_lem n 1 m [] [] ∙ unseen-nil (dedup (ranked n 1 m))
