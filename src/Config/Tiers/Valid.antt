-- ===== src/Config/Tiers/Valid.antt =====
-- What a list of tiers must be to pass the validation, whatever order it is written in.
use market_proxy.Prelude.{
  ◌≡◌, ◌≢◌, refl, ◌↔◌, ◌⊎◌, inl, inr, Option, none, some, List, [], ◌∷◌, arith, All, Pairs,
  All-map_with, Bool-cases, string_eq,
}
use market_proxy.Prelude.Int.{pos, leb_ℤ, ◌≤ℤ◌, ◌<ℤ◌}
use market_proxy.Prelude.Errors.{Error}
use market_proxy.Config.Tiers.{
  Tier, insert_tier, sort_tiers, check_tier, check_overlap, check_sorted, validate_tiers, or_else,
}

-- One tier by itself.
pub record IsSound (t : Tier) : Type 0 where
  pub named : t.name ≢ ""
  pub positive : pos 0 <ℤ t.range_from
  pub ordered : t.range_from ≤ℤ t.range_to
  pub recurring : pos 0 <ℤ t.update_interval

-- Two tiers have nothing in common.
abbrev pub IsApart : Tier → Tier → Type 0
IsApart t u = (t.range_to <ℤ u.range_from) ⊎ (u.range_to <ℤ t.range_from)

IsApart-sym : (t u : Tier) → IsApart t u → IsApart u t
IsApart-sym t u (inl h) = inr h
IsApart-sym t u (inr h) = inl h

check_tier-IsSound : (t : Tier) → check_tier t ≡ none → IsSound t
unfolding check_tier
check_tier-IsSound t h = ground (arith, string_eq.same_iff t.name "")

IsSound-check_tier : (t : Tier) → IsSound t → check_tier t ≡ none
unfolding check_tier
IsSound-check_tier t s = ground (arith, string_eq.same_iff t.name "", s.named)

abbrev Above : Option Tier → Tier → Type 0
Above none t = Unit
Above (some p) t = p.range_to <ℤ t.range_from

module _ {κ} (P : Tier → Type κ) where
  All-insert_tier : (t : Tier) (ts : List Tier) → All P (insert_tier t ts) ↔ (P t × All P ts)
  unfolding insert_tier
  All-insert_tier t [] = ((λ h. h), (λ h. h))
  All-insert_tier t (u ∷ us) = elim (Bool-cases (leb_ℤ t.range_from u.range_from)) [
    | inl e ↦ rw e ((λ h. h), (λ h. h))
    | inr e ↦ rw e (
        let ih = All-insert_tier t us in
        ((λ h. let r = ih.0 h.1 in (r.0, (h.0, r.1))), (λ h. (h.1.0, ih.1 (h.0, h.1.1)))))
  ]

  All-sort_tiers : (ts : List Tier) → All P (sort_tiers ts) ↔ All P ts
  unfolding sort_tiers
  All-sort_tiers [] = ((λ h. h), (λ h. h))
  All-sort_tiers (t ∷ ts) =
      let i = All-insert_tier t (sort_tiers ts) in
      let r = All-sort_tiers ts in
      ((λ h. let x = i.0 h in (x.0, r.0 x.1)), (λ h. i.1 (h.0, r.1 h.1)))

Pairs-insert_tier :
    (t : Tier) (ts : List Tier)
    → Pairs IsApart (insert_tier t ts) ↔ (All (IsApart t) ts × Pairs IsApart ts)
unfolding insert_tier
Pairs-insert_tier t [] = ((λ h. h), (λ h. h))
Pairs-insert_tier t (u ∷ us) = elim (Bool-cases (leb_ℤ t.range_from u.range_from)) [
  | inl e ↦ rw e ((λ h. h), (λ h. h))
  | inr e ↦ rw e (
      let ih = Pairs-insert_tier t us in
      let a = All-insert_tier (IsApart u) t us in
      (
        (λ h. let r = ih.0 h.1 in let q = a.0 h.0 in ((IsApart-sym u t q.0, r.0), (q.1, r.1))),
        (λ h. (a.1 (IsApart-sym t u h.0.0, h.1.0), ih.1 (h.0.1, h.1.1))),
      ))
]

Pairs-sort_tiers : (ts : List Tier) → Pairs IsApart (sort_tiers ts) ↔ Pairs IsApart ts
unfolding sort_tiers
Pairs-sort_tiers [] = ((λ h. h), (λ h. h))
Pairs-sort_tiers (t ∷ ts) =
    let i = Pairs-insert_tier t (sort_tiers ts) in
    let r = Pairs-sort_tiers ts in
    let a = All-sort_tiers (IsApart t) ts in
    ((λ h. let x = i.0 h in (a.0 x.0, r.0 x.1)), (λ h. i.1 (a.1 h.0, r.1 h.1)))

abbrev Begins : Tier → Tier → Type 0
Begins t u = t.range_from ≤ℤ u.range_from

insert_tier-sorted : (t : Tier) (ts : List Tier) → Pairs Begins ts → Pairs Begins (insert_tier t ts)
unfolding insert_tier
insert_tier-sorted t [] h = (tt, tt)
insert_tier-sorted t (u ∷ us) h = elim (Bool-cases (leb_ℤ t.range_from u.range_from)) [
  | inl e ↦ rw e (
      let le : Begins t u = ground arith in
      ((le, All-map_with (Begins u) (Begins t) us (λ v b. omega arith) h.0), h))
  | inr e ↦
      rw e ((All-insert_tier (Begins u) t us).1 (ground arith, h.0), insert_tier-sorted t us h.1)
]

sort_tiers-sorted : (ts : List Tier) → Pairs Begins (sort_tiers ts)
unfolding sort_tiers
sort_tiers-sorted [] = tt
sort_tiers-sorted (t ∷ ts) = insert_tier-sorted t (sort_tiers ts) (sort_tiers-sorted ts)

or_else-eq-none : (a b : Option Error) → or_else a b ≡ none → (a ≡ none) × (b ≡ none)
or_else-eq-none none b h = (refl, h)
or_else-eq-none (some e) b h = cc

check_overlap-Above : (prev : Option Tier) (t : Tier) → check_overlap prev t ≡ none → Above prev t
unfolding check_overlap
check_overlap-Above none t h = tt
check_overlap-Above (some p) t h = ground arith

Above-check_overlap : (prev : Option Tier) (t : Tier) → Above prev t → check_overlap prev t ≡ none
unfolding check_overlap
Above-check_overlap none t h = refl
Above-check_overlap (some p) t h = ground arith

Above-trans :
    (prev : Option Tier) (t u : Tier)
    → IsSound t
    → Above prev t
    → t.range_to <ℤ u.range_from
    → Above prev u
Above-trans none t u s a h = tt
Above-trans (some p) t u s a h = omega (arith, s.ordered)

Above-apart :
    (t : Tier) (ts : List Tier)
    → IsSound t
    → All IsSound ts
    → All (IsApart t) ts
    → All (Begins t) ts
    → All (Above (some t)) ts
Above-apart t [] s ss a b = tt
Above-apart t (u ∷ us) s ss a b = (
  elim a.0 [ inl h ↦ h | inr h ↦ absurd (omega (arith, ss.0.ordered, b.0)) ],
  Above-apart t us s ss.1 a.1 b.1,
)

check_sorted-IsSound :
    (prev : Option Tier) (ts : List Tier)
    → check_sorted prev ts ≡ none
    → All IsSound ts × Pairs IsApart ts × All (Above prev) ts
unfolding check_sorted
check_sorted-IsSound prev [] h = (tt, tt, tt)
check_sorted-IsSound prev (t ∷ ts) h =
    let (own, others) = or_else-eq-none (check_tier t) _ h in
    let (apart, rest) = or_else-eq-none (check_overlap prev t) _ others in
    let s = check_tier-IsSound t own in
    let a = check_overlap-Above prev t apart in
    let (ss, pairs, aa) = check_sorted-IsSound (some t) ts rest in
    (
      (s, ss),
      (All-map_with (Above (some t)) (IsApart t) ts (λ u x. inl x) aa, pairs),
      (a, All-map_with (Above (some t)) (Above prev) ts (λ u x. Above-trans prev t u s a x) aa),
    )

check_sorted_complete :
    (prev : Option Tier) (ts : List Tier)
    → All IsSound ts
    → Pairs IsApart ts
    → Pairs Begins ts
    → All (Above prev) ts
    → check_sorted prev ts ≡ none
unfolding check_sorted
check_sorted_complete prev [] s a b c = refl
check_sorted_complete prev (t ∷ ts) s a b c =
    rw (IsSound-check_tier t s.0, Above-check_overlap prev t c.0)
      (check_sorted_complete (some t) ts s.1 a.1 b.1 (Above-apart t ts s.0 s.1 a.0 b.0))

-- The tiers are accepted exactly if there is one, each has a name, a positive range and interval,
-- and no two of them overlap: the order in which they are configured does not matter.
pub validate_tiers_iff :
    (ts : List Tier) → (validate_tiers ts ≡ none) ↔ ((ts ≢ []) × All IsSound ts × Pairs IsApart ts)
unfolding validate_tiers
validate_tiers_iff [] = ((λ h. cc), (λ h. absurd (h.0 refl)))
validate_tiers_iff (t ∷ ts) =
    let all = t ∷ ts in
    (
      (λ h.
          let r = check_sorted-IsSound none (sort_tiers all) h in
          ((λ e. cc), (All-sort_tiers IsSound all).0 r.0, (Pairs-sort_tiers all).0 r.1)),
      (λ h.
          check_sorted_complete none (sort_tiers all) ((All-sort_tiers IsSound all).1 h.1)
            ((Pairs-sort_tiers all).1 h.2) (sort_tiers-sorted all) (above_none (sort_tiers all))),
    )
  where
    above_none : (us : List Tier) → All (Above none) us
    above_none [] = tt
    above_none (u ∷ us) = (tt, above_none us)
