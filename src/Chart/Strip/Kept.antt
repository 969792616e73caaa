-- ===== src/Chart/Strip/Kept.antt =====
-- What coingecko_market_chart/strip_response_utils.go leaves of a chart.
use market_proxy.Prelude.{
  ℕ, String, ◌≡◌, inl, inr, refl, sym, ap, ◌∙◌, Bool, true, false, ◌||◌, Option, none, some, List,
  [], ◌∷◌, ◌==◌, string_eq, if◌then◌else◌, Bool-cases,
}
use market_proxy.Prelude.Int.{ℤ}
use market_proxy.Prelude.Maps.{Map, lookup}
use market_proxy.Prelude.Sets.{is_in}
use market_proxy.Prelude.Decimal.{digits_from, atoi}
use market_proxy.Prelude.Space.{split_commas}
use market_proxy.Json.{Json}
use market_proxy.Chart.{MarketChartParams, trimmed_parts}
use market_proxy.Chart.Strip.{
  cutoff, Value, only_allowed, filter_by_data_keys, filter_chart_data_by_timestamp, filter_each,
  filter_number, filter_by_days, strip_market_chart_response,
}

abbrev pub mapped : {A : Type 0} → (A → A) → Option A → Option A
mapped f none = none
mapped f (some x) = some (f x)

-- The fields that were asked for: all of them, or those that are listed.
abbrev pub is_asked : MarketChartParams → String → Bool
is_asked p key = p.data_filter == "" || is_in key (trimmed_parts (split_commas p.data_filter))

same_value : {A : Type 0} → (b : Bool) (o : Option A) → (if b then o else o) ≡ o
same_value true o = refl
same_value false o = refl

module _ {F : Type 0} where
  lookup-only_allowed :
      (allowed : List String) (key : String) (m : Map String (Value F))
      → lookup key (only_allowed allowed m) ≡ (if is_in key allowed then lookup key m else none)
  unfolding only_allowed lookup
  lookup-only_allowed allowed key [] = sym (same_value (is_in key allowed) none)
  lookup-only_allowed allowed key ((k, v) ∷ m) =
      let ih = lookup-only_allowed allowed key m in
      elim (Bool-cases (k == key)) [
        | inl e ↦
            let q = (string_eq.same_iff k key).0 e in
            elim (Bool-cases (is_in k allowed)) [
              | inl i ↦
                  (let j : is_in key allowed ≡ true = ap (λ x. is_in x allowed) (sym q) ∙ i in
                    rw (i, j, e) refl)
              | inr i ↦
                  let j : is_in key allowed ≡ false = ap (λ x. is_in x allowed) (sym q) ∙ i in
                  rw (i, j) (ih ∙ rw j refl)
            ]
        | inr e ↦ elim (Bool-cases (is_in k allowed)) [
          | inl i ↦ rw (i, e) ih
          | inr i ↦ rw (i, e) ih
        ]
      ]

module _ {F : Type 0} (points_of : Json F → Option (List (F × F))) (at_least : F → ℤ → Bool) where
  -- A value with its points from the asked number of days on, if a number was asked for.
  abbrev pub recent_number : ℕ → Option ℤ → Value F → Value F
  recent_number now none v = v
  recent_number now (some days) v =
      filter_chart_data_by_timestamp points_of at_least (cutoff now days) v

  abbrev pub recent : ℕ → String → Value F → Value F
  recent now days = recent_number now (atoi days)

  lookup-filter_each :
      (cut : ℤ) (key : String) (m : Map String (Value F))
      → lookup key (filter_each points_of at_least cut m)
        ≡ mapped (filter_chart_data_by_timestamp points_of at_least cut) (lookup key m)
  unfolding filter_each lookup
  lookup-filter_each cut key [] = refl
  lookup-filter_each cut key ((k, v) ∷ m) = elim (Bool-cases (k == key)) [
    | inl e ↦ rw e refl
    | inr e ↦ rw e (lookup-filter_each cut key m)
  ]

  mapped_same : (o : Option (Value F)) → mapped (λ v. v) o ≡ o
  mapped_same none = refl
  mapped_same (some v) = refl

  lookup-filter_number :
      (now : ℕ) (key : String) (m : Map String (Value F)) (o : Option ℤ)
      → lookup key (filter_number points_of at_least now m o)
        ≡ mapped (recent_number now o) (lookup key m)
  lookup-filter_number now key m none = sym (mapped_same (lookup key m))
  lookup-filter_number now key m (some days) = lookup-filter_each (cutoff now days) key m

  by_days :
      (now : ℕ) (days key : String) (m : Map String (Value F))
      → lookup key (
          if days == "max"
          then m
          else (if days == "" then m else filter_by_days points_of at_least now m days))
        ≡ mapped (recent now days) (lookup key m)
  unfolding filter_by_days atoi digits_from
  by_days now days key m = elim (Bool-cases (days == "max")) [
    | inl e ↦
        let q : atoi days ≡ none = ap atoi ((string_eq.same_iff days "max").0 e) in
        rw (e, q) (sym (mapped_same (lookup key m)))
    | inr e ↦ elim (Bool-cases (days == "")) [
      | inl f ↦
          let q : atoi days ≡ none = ap atoi ((string_eq.same_iff days "").0 f) in
          rw (e, f, q) (sym (mapped_same (lookup key m)))
      | inr f ↦ rw (e, f) (lookup-filter_number now key m (atoi days))
    ]
  ]

  pub lookup-strip_market_chart_response :
      (now : ℕ) (p : MarketChartParams) (m : Map String (Value F)) (key : String)
      → lookup key (strip_market_chart_response points_of at_least now p m)
        ≡ (if is_asked p key then mapped (recent now p.days) (lookup key m) else none)
  unfolding strip_market_chart_response filter_by_data_keys
  lookup-strip_market_chart_response now p m key =
      by_days now p.days key (filter_by_data_keys m p.data_filter)
      ∙ elim (Bool-cases (p.data_filter == "")) [
        | inl e ↦ rw e refl
        | inr e ↦
            let allowed = trimmed_parts (split_commas p.data_filter) in
            rw (e, lookup-only_allowed allowed key m)
              (elim (Bool-cases (is_in key allowed)) [ inl i ↦ rw i refl | inr i ↦ rw i refl ])
      ]

  -- Two charts with the same values under each key are stripped alike.
  pub strip_market_chart_response-same :
      (now : ℕ) (p : MarketChartParams) (m m' : Map String (Value F)) (key : String)
      → lookup key m ≡ lookup key m'
      → lookup key (strip_market_chart_response points_of at_least now p m)
        ≡ lookup key (strip_market_chart_response points_of at_least now p m')
  strip_market_chart_response-same now p m m' key e =
      lookup-strip_market_chart_response now p m key
      ∙ ap (λ o. if is_asked p key then mapped (recent now p.days) o else none) e
      ∙ sym (lookup-strip_market_chart_response now p m' key)
