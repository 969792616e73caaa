-- ===== src/Prices/Updater/Stale.antt =====
-- Which extra ids coingecko_prices/periodic_updater.go fetches.
use mathlib.Core.Path.{subst}
use market_proxy.Prelude.{
  ℕ, String, ◌≡◌, ◌↔◌, ◌⊎◌, inl, inr, refl, ap, sym, ◌∙◌, true, Option, none, some, List, [], ◌∷◌,
  ◌++◌, Bool-cases, string_eq, All, In, arith,
}
use market_proxy.Prelude.Int.{ℤ, ◌<ℤ◌}
use market_proxy.Prelude.Maps.{Map, lookup}
use market_proxy.Markets.Updater.{since}
use market_proxy.Prices.Updater.{TierDataWithTimestamp}
use market_proxy.Prices.Updater.Update.{stale_in, is_missing_or_stale, find_missing_or_stale_ids}

-- No tier of the list has a price for the id.
abbrev pub IsMissing : String → Map String TierDataWithTimestamp → Type 0
IsMissing id tiers = All (λ (t : String × TierDataWithTimestamp). lookup id t.1.prices ≡ none) tiers

-- The first tier that has one has had it for longer than `half`.
abbrev pub IsStale : ℤ → ℕ → String → Map String TierDataWithTimestamp → Type 0
IsStale half now id tiers =
    (front : Map String TierDataWithTimestamp) × (name : String) × (d : TierDataWithTimestamp)
    × (back : Map String TierDataWithTimestamp) × (price : String) × (tiers
        ≡ front ++ (name, d) ∷ back)
    × IsMissing id front
    × (lookup id d.prices ≡ some price)
    × (half <ℤ since now d.timestamp)

stale_iff :
    (half : ℤ) (now : ℕ) (d : TierDataWithTimestamp)
    → (stale_in half now d ≡ true) ↔ (half <ℤ since now d.timestamp)
stale_iff half now d = ground arith

abbrev entry : String → TierDataWithTimestamp → String × TierDataWithTimestamp
entry name d = (name, d)

-- From the tiers behind the first, which has no price for the id.
later_tier :
    (half : ℤ) (now : ℕ) (id : String) (name : String) (d : TierDataWithTimestamp)
    (tiers : Map String TierDataWithTimestamp)
    → lookup id d.prices ≡ none
    → ((IsMissing id tiers ⊎ IsStale half now id tiers)
        ↔ (IsMissing id ((name, d) ∷ tiers) ⊎ IsStale half now id ((name, d) ∷ tiers)))
later_tier half now id name d tiers n = (
  (λ h. elim h [
    | inl m ↦ inl (n, m)
    | inr (front, name', d', back, price, e, m, l, s) ↦
        inr ((name, d) ∷ front, name', d', back, price, ap (λ t. (name, d) ∷ t) e, (n, m), l, s)
  ]),
  (λ h. elim h [
    | inl m ↦ inl m.1
    | inr (front, name', d', back, price, e, m, l, s) ↦ behind front name' d' back price e m l s
  ]),
)
  where
    behind :
        (front : Map String TierDataWithTimestamp) (name' : String) (d' : TierDataWithTimestamp)
        (back : Map String TierDataWithTimestamp) (price : String)
        → (name, d) ∷ tiers ≡ front ++ (name', d') ∷ back
        → IsMissing id front
        → lookup id d'.prices ≡ some price
        → half <ℤ since now d'.timestamp
        → IsMissing id tiers ⊎ IsStale half now id tiers
    behind [] name' d' back price e m l s = absurd (
        let q : entry name d ≡ entry name' d' = cc in
        let r : none ≡ some price =
          sym n ∙ ap (λ (x : String × TierDataWithTimestamp). lookup id x.1.prices) q ∙ l in
        cc)
    behind (t ∷ front) name' d' back price e m l s = inr (
      front,
      name',
      d',
      back,
      price,
      (let q : tiers ≡ front ++ (name', d') ∷ back = cc in q),
      m.1,
      l,
      s,
    )

is_missing_or_stale_iff :
    (half : ℤ) (now : ℕ) (id : String) (tiers : Map String TierDataWithTimestamp)
    → (is_missing_or_stale half now id tiers ≡ true)
      ↔ (IsMissing id tiers ⊎ IsStale half now id tiers)
unfolding is_missing_or_stale
is_missing_or_stale_iff half now id [] = ((λ h. inl tt), (λ h. refl))
is_missing_or_stale_iff half now id ((name, d) ∷ tiers) =
    first (lookup id d.prices) refl (is_missing_or_stale_iff half now id tiers)
  where
    this_tier :
        (price : String) (front : Map String TierDataWithTimestamp) (name' : String)
        (d' : TierDataWithTimestamp) (back : Map String TierDataWithTimestamp)
        → (name, d) ∷ tiers ≡ front ++ (name', d') ∷ back
        → IsMissing id front
        → half <ℤ since now d'.timestamp
        → lookup id d.prices ≡ some price
        → half <ℤ since now d.timestamp
    this_tier price [] name' d' back e m t y =
        let same : entry name d ≡ entry name' d' = cc in
        subst (λ (x : String × TierDataWithTimestamp). half <ℤ since now x.1.timestamp) (sym same) t
    this_tier price (u ∷ front) name' d' back e m t y = absurd (
        let same : entry name d ≡ u = cc in
        let r : none ≡ some price =
          sym m.0
          ∙ ap (λ (x : String × TierDataWithTimestamp). lookup id x.1.prices) (sym same)
          ∙ y in
        cc)

    first :
        (o : Option String)
        → lookup id d.prices ≡ o
        → ((is_missing_or_stale half now id tiers ≡ true)
            ↔ (IsMissing id tiers ⊎ IsStale half now id tiers))
        → ((elim o [
          | some price ↦ stale_in half now d
          | none ↦ is_missing_or_stale half now id tiers
        ])
            ≡ true)
          ↔ (IsMissing id ((name, d) ∷ tiers) ⊎ IsStale half now id ((name, d) ∷ tiers))
    first none n ih =
        let l = later_tier half now id name d tiers n in ((λ h. l.0 (ih.0 h)), (λ h. ih.1 (l.1 h)))
    first (some price) y ih =
        let s = stale_iff half now d in
        (
          (λ h. inr ([], name, d, tiers, price, refl, tt, y, s.0 h)),
          (λ h. elim h [
            | inl m ↦ absurd (let r : none ≡ some price = sym m.0 ∙ y in cc)
            | inr (front, name', d', back, price', e, m, l, t) ↦
                s.1 (this_tier price front name' d' back e m t y)
          ]),
        )

-- The extra ids that are fetched are exactly those that no tier has a price for, and those whose
-- first price, in the order in which the tiers are met, is older than `half`.
pub find_missing_or_stale_ids_iff :
    (half : ℤ) (now : ℕ) (ids : List String) (tiers : Map String TierDataWithTimestamp)
    (id : String)
    → In id (find_missing_or_stale_ids half now ids tiers)
      ↔ (In id ids × (IsMissing id tiers ⊎ IsStale half now id tiers))
unfolding find_missing_or_stale_ids
find_missing_or_stale_ids_iff half now [] tiers id = ((λ h. absurd h), (λ h. absurd h.0))
find_missing_or_stale_ids_iff half now (x ∷ ids) tiers id =
    let ih = find_missing_or_stale_ids_iff half now ids tiers id in
    let i = is_missing_or_stale_iff half now x tiers in
    elim (Bool-cases (is_missing_or_stale half now x tiers)) [
      | inl y ↦ rw y (
        (λ h. elim h [
          | inl e ↦ (inl e, subst (λ z. IsMissing z tiers ⊎ IsStale half now z tiers) e (i.0 y))
          | inr m ↦ (let r = ih.0 m in (inr r.0, r.1))
        ]),
        (λ h. elim h.0 [ inl e ↦ inl e | inr m ↦ inr (ih.1 (m, h.1)) ]),
      )
      | inr n ↦ rw n (
        (λ h. let r = ih.0 h in (inr r.0, r.1)),
        (λ h. elim h.0 [
          | inl e ↦ absurd (
              let q = i.1 (subst (λ z. IsMissing z tiers ⊎ IsStale half now z tiers) (sym e) h.1) in
              cc)
          | inr m ↦ ih.1 (m, h.1)
        ]),
      )
    ]
