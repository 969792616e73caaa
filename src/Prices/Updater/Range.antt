-- ===== src/Prices/Updater/Range.antt =====
-- Which ids the tiers of coingecko_prices/periodic_updater.go fetch.
use market_proxy.Prelude.{
  ℕ, zero, suc, ◌+◌, ◌-◌, ◌≤◌, ◌<◌, String, ◌≡◌, refl, ap, sym, ◌∙◌, inl, inr, false, Option, none,
  some, List, [], ◌∷◌, ◌++◌, ◌==◌, nat_eq, if◌then◌else◌, length, take, drop, take_all, arith,
  Bool-cases, leb,
}
use market_proxy.Prelude.Int.{pos, leb_ℤ, ◌-ℤ◌, ◌+ℤ◌}
use market_proxy.Config.Prices.{PriceTier}
use market_proxy.Prices.Updater.Update.{slice, end_index, ids_between, tier_token_ids}

drop_all : {A : Type 0} (n : ℕ) (xs : List A) → length xs ≤ n → drop n xs ≡ []
drop_all zero [] h = refl
drop_all zero (x ∷ xs) h = absurd (omega arith)
drop_all (suc n) [] h = refl
drop_all (suc n) (x ∷ xs) h = drop_all n xs (omega arith)

length-drop : {A : Type 0} (n : ℕ) (xs : List A) → length (drop n xs) ≡ length xs - n
length-drop zero xs = omega arith
length-drop (suc n) [] = omega arith
length-drop (suc n) (x ∷ xs) = omega (arith, length-drop n xs)

take-nil : {A : Type 0} (n : ℕ) (xs : List A) → xs ≡ [] → take n xs ≡ []
take-nil zero xs h = refl
take-nil (suc n) [] h = refl
take-nil (suc n) (x ∷ xs) h = absurd cc

drop-nil : {A : Type 0} (n : ℕ) (xs : List A) → xs ≡ [] → drop n xs ≡ []
drop-nil zero xs h = h
drop-nil (suc n) [] h = refl
drop-nil (suc n) (x ∷ xs) h = absurd cc

take_same : {A : Type 0} (m n : ℕ) (xs : List A) → m ≡ n → take m xs ≡ take n xs
take_same m n xs e = ap (λ k. take k xs) e

drop_same : {A : Type 0} (m n : ℕ) (xs : List A) → m ≡ n → drop m xs ≡ drop n xs
drop_same m n xs e = ap (λ k. drop k xs) e

-- Two segments, one behind the other.
take_then : {A : Type 0} (m n : ℕ) (xs : List A) → take m xs ++ take n (drop m xs) ≡ take (m + n) xs
take_then zero n xs = take_same n (0 + n) xs (omega arith)
take_then (suc m) n [] = take-nil n [] refl ∙ sym (take-nil (suc m + n) [] refl)
take_then (suc m) n (x ∷ xs) =
    ap (λ t. x ∷ t) (take_then m n xs) ∙ take_same (suc (m + n)) (suc m + n) (x ∷ xs) (omega arith)

drop_then : {A : Type 0} (m n : ℕ) (xs : List A) → drop n (drop m xs) ≡ drop (m + n) xs
drop_then zero n xs = drop_same n (0 + n) xs (omega arith)
drop_then (suc m) n [] = drop-nil n [] refl ∙ sym (drop-nil (suc m + n) [] refl)
drop_then (suc m) n (x ∷ xs) =
    drop_then m n xs ∙ drop_same (suc (m + n)) (suc m + n) (x ∷ xs) (omega arith)

abbrev pub ids_of : Option (List String) → List String
ids_of none = []
ids_of (some ids) = ids

before : (n : ℕ) → pos (suc n) -ℤ pos 1 ≡ pos n
before n = ground arith

behind : (n : ℕ) → pos n +ℤ pos 1 ≡ pos (suc n)
behind n = ground arith

slice_lem :
    (from to : ℕ) (ids : List String)
    → from ≤ to
    → slice (pos from) (pos to) ids ≡ some (take (to - from) (drop from ids))
unfolding slice
slice_lem from to ids h = ground (arith, h)

end_index_lem :
    (n to : ℕ) → end_index (suc n) (pos to) ≡ (if leb (suc n) to then pos (suc n) else pos (suc to))
unfolding end_index
end_index_lem n to = ground arith

-- Taking from a list as much as it has, or more.
take_enough :
    {A : Type 0} (m n : ℕ) (xs : List A) → length xs ≤ m → length xs ≤ n → take m xs ≡ take n xs
take_enough m n xs a b = take_all m xs a ∙ sym (take_all n xs b)

ids_between_lem :
    (from to : ℕ) (ids : List String)
    → from ≤ to
    → ids_of (ids_between (pos from) (pos to) ids) ≡ take (suc to - from) (drop from ids)
unfolding ids_between
ids_between_lem from to [] h = sym (take-nil (suc to - from) (drop from []) (drop-nil from [] refl))
ids_between_lem from to (x ∷ xs) h =
    let ids = x ∷ xs in
    let some_ids : (length ids == 0) ≡ false = ground arith in
    elim (Bool-cases (leb_ℤ (pos (length ids)) (pos from))) [
      | inl e ↦
          rw (some_ids, e)
            (sym (take-nil (suc to - from) (drop from ids) (drop_all from ids (ground (arith, e)))))
      | inr e ↦
          rw (some_ids, e, end_index_lem (length xs) to)
            (elim (Bool-cases (leb (length ids) to)) [
              | inl q ↦
                  rw (q, slice_lem from (length ids) ids (ground (arith, e)))
                    (take_enough (length ids - from) (suc to - from) (drop from ids)
                      (omega (arith, length-drop from ids))
                      (ground (arith, length-drop from ids, q)))
              | inr q ↦ rw (q, slice_lem from (suc to) ids (omega (arith, h))) refl
            ])
    ]

-- A tier that the validation accepts, from the number of ids before it to that with it.
abbrev pub IsRange : PriceTier → ℕ → ℕ → Type 0
IsRange tier from to = (tier.token_from ≡ pos (suc from)) × (tier.token_to ≡ pos to) × (from < to)

tier_token_ids_lem :
    (tier : PriceTier) (from to : ℕ) (ids : List String)
    → IsRange tier from to
    → ids_of (tier_token_ids tier ids) ≡ take (to - from) (drop from ids)
unfolding tier_token_ids
tier_token_ids_lem tier from zero ids h = absurd (omega (arith, h.2))
tier_token_ids_lem tier from (suc to) ids h =
    rw (h.0, h.1, before from, before to) (ids_between_lem from to ids (omega (arith, h.2)))

-- Tiers that follow one another, from `from` ids on to `end_`.
abbrev pub IsChain : ℕ → List PriceTier → ℕ → Type 0
IsChain from [] end_ = from ≡ end_
IsChain from (tier ∷ tiers) end_ = (to : ℕ) × IsRange tier from to × IsChain to tiers end_

abbrev pub fetched_ids : List String → List PriceTier → List String
fetched_ids ids [] = []
fetched_ids ids (tier ∷ tiers) = ids_of (tier_token_ids tier ids) ++ fetched_ids ids tiers

chain_le : (from : ℕ) (tiers : List PriceTier) (end_ : ℕ) → IsChain from tiers end_ → from ≤ end_
chain_le from [] end_ h = omega (arith, h)
chain_le from (tier ∷ tiers) end_ (to, r, h) = omega (arith, r.2, chain_le to tiers end_ h)

chain_fetched :
    (from : ℕ) (tiers : List PriceTier) (end_ : ℕ) (ids : List String)
    → IsChain from tiers end_
    → fetched_ids ids tiers ≡ take (end_ - from) (drop from ids)
chain_fetched from [] end_ ids h = take_same 0 (end_ - from) (drop from ids) (omega (arith, h))
chain_fetched from (tier ∷ tiers) end_ ids (to, r, h) =
    rw (tier_token_ids_lem tier from to ids r, chain_fetched to tiers end_ ids h)
      (ap (λ l. take (to - from) (drop from ids) ++ take (end_ - to) l)
          (drop_same to (from + (to - from)) ids (omega (arith, r.2))
            ∙ sym (drop_then from (to - from) ids))
        ∙ take_then (to - from) (end_ - to) (drop from ids)
        ∙ take_same ((to - from) + (end_ - to)) (end_ - from) (drop from ids)
            (omega (arith, r.2, chain_le to tiers end_ h)))

-- Tiers that follow one another from the first id on fetch together the first ids of the ranking, as
-- far as the last tier reaches and there are ids, in order: none is left out and none fetched twice.
pub tiers_cover :
    (tiers : List PriceTier) (end_ : ℕ) (ids : List String)
    → IsChain 0 tiers end_
    → fetched_ids ids tiers ≡ take end_ ids
tiers_cover tiers end_ ids h =
    chain_fetched 0 tiers end_ ids h ∙ take_same (end_ - 0) end_ ids (omega arith)
