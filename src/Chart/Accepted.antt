-- ===== src/Chart/Accepted.antt =====
-- Which requests coingecko_market_chart/types.go accepts.
use market_proxy.Prelude.{
  ℕ, ◌≤◌, String, ◌≡◌, ◌≢◌, ◌⊎◌, inl, inr, ◌↔◌, refl, ◌||◌, Option, none, some, true, List, [], ◌∷◌,
  ◌==◌, string_eq, if◌then◌else◌, Bool-cases, different, All, In, arith,
}
use market_proxy.Prelude.Int.{ℤ, pos, negsuc, ltb_ℤ}
use market_proxy.Prelude.Sets.{is_in, is_in_iff}
use market_proxy.Prelude.Decimal.{atoi}
use market_proxy.Prelude.Space.{trim_space}
use market_proxy.Prelude.Errors.{Error}
use market_proxy.Chart.{
  MarketChartParams, parse_data_filters, valid_intervals, valid_fields, check_number, check_days,
  check_interval, check_fields, or_next, validate,
}

-- The days are those of a default, all there are, or a number from 1 to 365.
abbrev pub IsDays : String → Type 0
IsDays days =
    (days ≡ "") ⊎ (days ≡ "max") ⊎ ((n : ℕ) × (atoi days ≡ some (pos n)) × (1 ≤ n) × (n ≤ 365))

abbrev pub IsAccepted : MarketChartParams → Type 0
IsAccepted p =
    (trim_space p.id ≢ "")
    × IsDays p.days
    × ((p.interval ≡ "") ⊎ In p.interval valid_intervals)
    × ((p.data_filter ≡ "") ⊎ All (λ f. In f valid_fields) (parse_data_filters p.data_filter))

some_apart : {A : Type 0} → (x : A) → some x ≢ none
some_apart x e = absurd cc

failed : {e : Error} → some e ≡ none → ⊥
failed h = absurd cc

check_number_iff :
    (o : Option ℤ) → (check_number o ≡ none) ↔ ((n : ℕ) × (o ≡ some (pos n)) × (1 ≤ n) × (n ≤ 365))
check_number_iff none = ((λ e. absurd cc), (λ h. absurd (let (n, e, a, b) = h in cc)))
check_number_iff (some (negsuc n)) = (
  (λ e.
      absurd
        (let below : ltb_ℤ (negsuc n) (pos 1) ≡ true = ground arith in failed (rw below at e))),
  (λ h. absurd (let (m, e, a, b) = h in cc)),
)
check_number_iff (some (pos n)) =
    elim (Bool-cases (ltb_ℤ (pos n) (pos 1) || ltb_ℤ (pos 365) (pos n))) [
      | inl y ↦ (
        (λ e. absurd (failed (rw y at e))),
        (λ h.
            absurd
              (let (m, e, a, b) = h in let same : n ≡ m = cc in ground (arith, y, a, b, same))),
      )
      | inr y ↦ ((λ e. (n, refl, ground (arith, y), ground (arith, y))), (λ h. rw y refl))
    ]

pub check_days_iff : (days : String) → (check_days days ≡ none) ↔ IsDays days
unfolding check_days
check_days_iff days = elim (Bool-cases (days == "")) [
  | inl e ↦ ((λ h. inl ((string_eq.same_iff days "").0 e)), (λ h. rw e refl))
  | inr e ↦ elim (Bool-cases (days == "max")) [
    | inl m ↦ ((λ h. inr (inl ((string_eq.same_iff days "max").0 m))), (λ h. rw (e, m) refl))
    | inr m ↦
        rw (e, m)
          (
            (λ h. inr (inr ((check_number_iff (atoi days)).0 h))),
            (λ h. elim h [
              | inl p ↦ absurd (different days "" e p)
              | inr r ↦ elim r [
                | inl p ↦ absurd (different days "max" m p)
                | inr n ↦ (check_number_iff (atoi days)).1 n
              ]
            ]),
          )
  ]
]

check_interval_iff :
    (interval : String)
    → (check_interval interval ≡ none) ↔ ((interval ≡ "") ⊎ In interval valid_intervals)
unfolding check_interval
check_interval_iff interval = elim (Bool-cases (interval == "")) [
  | inl e ↦ ((λ h. inl ((string_eq.same_iff interval "").0 e)), (λ h. rw e refl))
  | inr e ↦ elim (Bool-cases (is_in interval valid_intervals)) [
    | inl i ↦ ((λ h. inr ((is_in_iff interval valid_intervals).0 i)), (λ h. rw (e, i) refl))
    | inr i ↦
        rw (e, i)
          (
            (λ h. absurd (failed h)),
            (λ h. elim h [
              | inl p ↦ absurd (different interval "" e p)
              | inr q ↦ absurd (let t = (is_in_iff interval valid_intervals).1 q in cc)
            ]),
          )
  ]
]

check_fields_iff :
    (filters : List String) → (check_fields filters ≡ none) ↔ All (λ f. In f valid_fields) filters
unfolding check_fields
check_fields_iff [] = ((λ h. tt), (λ h. refl))
check_fields_iff (f ∷ fs) = elim (Bool-cases (is_in f valid_fields)) [
  | inl i ↦ rw i (
    (λ h. ((is_in_iff f valid_fields).0 i, (check_fields_iff fs).0 h)),
    (λ h. (check_fields_iff fs).1 h.1),
  )
  | inr i ↦
      rw i
        ((λ h. absurd (failed h)), (λ h. absurd (let t = (is_in_iff f valid_fields).1 h.0 in cc)))
]

check_filter_iff :
    (data_filter : String)
    → ((if data_filter == "" then none else check_fields (parse_data_filters data_filter)) ≡ none)
      ↔ ((data_filter ≡ "") ⊎ All (λ f. In f valid_fields) (parse_data_filters data_filter))
check_filter_iff data_filter =
    let fields = check_fields_iff (parse_data_filters data_filter) in
    elim (Bool-cases (data_filter == "")) [
      | inl e ↦ ((λ h. inl ((string_eq.same_iff data_filter "").0 e)), (λ h. rw e refl))
      | inr e ↦ rw e (
        (λ h. inr (fields.0 h)),
        (λ h. elim h [ inl p ↦ absurd (different data_filter "" e p) | inr a ↦ fields.1 a ]),
      )
    ]

three_checks :
    (a b c : Option Error)
    → (or_next a (or_next b c) ≡ none) ↔ ((a ≡ none) × (b ≡ none) × (c ≡ none))
three_checks (some e) b c = ((λ h. absurd (some_apart e h)), (λ h. h.0))
three_checks none (some e) c = ((λ h. absurd (some_apart e h)), (λ h. h.1))
three_checks none none c = ((λ h. (refl, refl, h)), (λ h. h.2))

pub validate_iff : (p : MarketChartParams) → (validate p ≡ none) ↔ IsAccepted p
unfolding validate
validate_iff p =
    let checks =
      three_checks (check_days p.days) (check_interval p.interval)
        (if p.data_filter == "" then none else check_fields (parse_data_filters p.data_filter)) in
    let days = check_days_iff p.days in
    let interval = check_interval_iff p.interval in
    let fields = check_filter_iff p.data_filter in
    elim (Bool-cases (trim_space p.id == "")) [
      | inl e ↦ (
        (λ h. absurd (failed (rw e at h))),
        (λ h. absurd (h.0 ((string_eq.same_iff (trim_space p.id) "").0 e))),
      )
      | inr e ↦ rw e (
        (λ h.
            let r = checks.0 h in
            (different (trim_space p.id) "" e, days.0 r.0, interval.0 r.1, fields.0 r.2)),
        (λ h. checks.1 (days.1 h.1, interval.1 h.2, fields.1 h.3)),
      )
    ]
