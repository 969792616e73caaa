-- ===== src/Prices/Strip/Included.antt =====
-- Which fields coingecko_prices/strip_utils.go lets through.
use market_proxy.Prelude.{
  String, ◌≡◌, ◌↔◌, ◌⊎◌, inl, inr, refl, ap, sym, ◌∙◌, Bool, true, false, ◌&&◌, some, List, ◌==◌,
  string_eq, Bool-cases, Option-cases, In, arith,
}
use mathlib.Core.Path.{subst}
use market_proxy.Prelude.Sets.{is_in, is_in_iff}
use market_proxy.Prelude.Text.{concat}
use market_proxy.Prelude.Suffix.{
  cut_suffix, cut_suffix_back, cut_suffix-concat, last_or, last_or-concat,
}
use market_proxy.Prices.Data.{PriceParams}
use market_proxy.Prices.Strip.{should_include_field, by_suffix}

-- The field is a currency that was asked for, with a suffix that was asked for.
abbrev pub IsAsked : Bool → String → String → List String → Type 0
IsAsked flag suffix name currencies =
    (flag ≡ true) × (currency : String) × (name ≡ concat currency suffix) × In currency currencies

by_suffix_iff :
    (flag : Bool) (suffix name : String) (currencies : List String) (otherwise : Bool)
    (Other : Type 0)
    → ((otherwise ≡ true) ↔ Other)
    → ((currency : String) → name ≡ concat currency suffix → ¬ Other)
    → (by_suffix flag (cut_suffix suffix name) currencies otherwise ≡ true)
      ↔ (IsAsked flag suffix name currencies ⊎ Other)
by_suffix_iff false suffix name currencies otherwise Other i apart =
    ((λ h. inr (i.0 h)), (λ h. elim h [ inl a ↦ absurd cc | inr o ↦ i.1 o ]))
by_suffix_iff true suffix name currencies otherwise Other i apart =
    elim (Option-cases (cut_suffix suffix name)) [
      | inl n ↦ rw n (
        (λ h. inr (i.0 h)),
        (λ h. elim h [
          | inl (f, c, e, m) ↦
              absurd (
                let q = sym (cut_suffix-concat suffix c) ∙ ap (cut_suffix suffix) (sym e) ∙ n in cc)
          | inr o ↦ i.1 o
        ]),
      )
      | inr (c, y) ↦ rw y (
        (λ h. inl (refl, c, cut_suffix_back suffix name c y, (is_in_iff c currencies).0 h)),
        (λ h. elim h [
          | inl (f, c', e, m) ↦
              let q : some c' ≡ some c =
                sym (cut_suffix-concat suffix c') ∙ ap (cut_suffix suffix) (sym e) ∙ y in
              (is_in_iff c currencies).1 (subst (λ x. In x currencies) (let r : c' ≡ c = cc in r) m)
          | inr o ↦ absurd (apart c (cut_suffix_back suffix name c y) o)
        ]),
      )
    ]

last_updated_iff :
    (flag : Bool) (name : String)
    → ((flag && name == "last_updated_at") ≡ true) ↔ ((flag ≡ true) × (name ≡ "last_updated_at"))
last_updated_iff false name = ((λ h. absurd cc), (λ h. absurd cc))
last_updated_iff true name = (
  (λ h. (refl, (string_eq.same_iff name "last_updated_at").0 h)),
  (λ h. (string_eq.same_iff name "last_updated_at").1 h.1),
)

market_cap_last : (c name : String) → name ≡ concat c "_market_cap" → last_or 0 name ≡ 112
market_cap_last c name e = ap (last_or 0) e ∙ last_or-concat 0 c "_market_cap"

vol_last : (c name : String) → name ≡ concat c "_24h_vol" → last_or 0 name ≡ 108
vol_last c name e = ap (last_or 0) e ∙ last_or-concat 0 c "_24h_vol"

change_last : (c name : String) → name ≡ concat c "_24h_change" → last_or 0 name ≡ 101
change_last c name e = ap (last_or 0) e ∙ last_or-concat 0 c "_24h_change"

updated_last : (name : String) → name ≡ "last_updated_at" → last_or 0 name ≡ 116
updated_last name e = ap (last_or 0) e

-- A field is let through exactly if it is a currency that was asked for, one with the suffix of a
-- quantity that was asked for, or the time of the last update and that was asked for.
should_include_field_iff :
    (name : String) (currencies : List String) (params : PriceParams)
    → (should_include_field name currencies params ≡ true) ↔ (
        In name currencies
        ⊎ (IsAsked params.include_market_cap "_market_cap" name currencies
            ⊎ (IsAsked params.include_24hr_vol "_24h_vol" name currencies
                ⊎ (IsAsked params.include_24hr_change "_24h_change" name currencies
                    ⊎ ((params.include_last_updated_at ≡ true) × (name ≡ "last_updated_at"))))))
unfolding should_include_field
should_include_field_iff name currencies params =
    let last = last_updated_iff params.include_last_updated_at name in
    let change =
      by_suffix_iff params.include_24hr_change "_24h_change" name currencies _ _ last
        (λ c e o. omega (arith, change_last c name e, updated_last name o.1)) in
    let vol = by_suffix_iff params.include_24hr_vol "_24h_vol" name currencies _ _ change (λ c e o.
      elim o [
        | inl (f, c', e', m) ↦ omega (arith, vol_last c name e, change_last c' name e')
        | inr l ↦ omega (arith, vol_last c name e, updated_last name l.1)
      ]) in
    let cap =
      by_suffix_iff params.include_market_cap "_market_cap" name currencies _ _ vol (λ c e o.
        elim o [
          | inl (f, c', e', m) ↦ omega (arith, market_cap_last c name e, vol_last c' name e')
          | inr (inl (f, c', e', m)) ↦
              omega (arith, market_cap_last c name e, change_last c' name e')
          | inr (inr l) ↦ omega (arith, market_cap_last c name e, updated_last name l.1)
        ]) in
    elim (Bool-cases (is_in name currencies)) [
      | inl y ↦ rw y ((λ h. inl ((is_in_iff name currencies).0 y)), (λ h. refl))
      | inr n ↦ rw n (
        (λ h. inr (cap.0 h)),
        (λ h. elim h [
          | inl m ↦ absurd (let q = (is_in_iff name currencies).1 m in cc)
          | inr o ↦ cap.1 o
        ]),
      )
    ]
