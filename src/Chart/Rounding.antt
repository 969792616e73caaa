-- ===== src/Chart/Rounding.antt =====
-- What rounding up in coingecko_market_chart/roundup_request_utils.go does to a request.
use market_proxy.Prelude.{
  ℕ, ◌≤◌, String, ◌≡◌, ◌⊎◌, inl, inr, refl, sym, ap, ◌∙◌, false, none, some, ◌==◌, string_eq,
  Bool-cases, arith,
}
use market_proxy.Prelude.Int.{ℤ, pos, leb_ℤ}
use market_proxy.Prelude.Decimal.{decimal, digits_from, atoi, atoi-decimal, max_int}
use market_proxy.Config.Chart.{MarketChartFetcherConfig}
use market_proxy.Chart.{
  MarketChartParams, validate, round_number, round_days, round_up_market_chart_params,
}
use market_proxy.Chart.Serving.{number_ttl, select_ttl}
use market_proxy.Chart.Accepted.{validate_iff}

-- The days asked for are among those of the wider request.
abbrev pub IsCovered : String → String → Type 0
IsCovered asked wider =
    (asked ≡ wider)
    ⊎ ((n : ℕ) × (m : ℕ) × (atoi asked ≡ some (pos n)) × (atoi wider ≡ some (pos m)) × (n ≤ m))

number_of_year : atoi "365" ≡ some (pos 365)
unfolding atoi digits_from
number_of_year = refl

-- A number is neither of the two words.
number_is_no_word :
    (s : String) (n : ℤ) → atoi s ≡ some n → ((s == "") ≡ false) × ((s == "max") ≡ false)
unfolding atoi digits_from
number_is_no_word s n h = (
  elim (Bool-cases (s == "")) [
    | inr e ↦ e
    | inl e ↦
        absurd (
          let w = (string_eq.same_iff s "").0 e in
          let q : none ≡ some n = ap atoi (sym w) ∙ h in cc)
  ],
  elim (Bool-cases (s == "max")) [
    | inr e ↦ e
    | inl e ↦ absurd (
        let w = (string_eq.same_iff s "max").0 e in
        let q : none ≡ some n = ap atoi (sym w) ∙ h in cc)
  ],
)

round_days-number :
    (threshold : ℤ) (s : String) (n : ℤ)
    → atoi s ≡ some n
    → round_days threshold s ≡ round_number threshold s (some n)
unfolding round_days
round_days-number threshold s n h =
    let words = number_is_no_word s n h in rw (words.0, words.1, h) refl

select_ttl-number :
    (c : MarketChartFetcherConfig) (p : MarketChartParams) (n : ℤ)
    → atoi p.days ≡ some n
    → select_ttl c p ≡ number_ttl c (some n)
unfolding select_ttl
select_ttl-number c p n h =
    let words = number_is_no_word p.days n h in rw (words.0, words.1, h) refl

-- Rounding loses no day, a second time it changes nothing, and the data stay as long in the cache.
abbrev pub IsRounded : MarketChartFetcherConfig → MarketChartParams → Type 0
IsRounded c p =
    let wider = round_up_market_chart_params p c.daily_data_threshold in
    IsCovered p.days wider.days
    × (round_up_market_chart_params wider c.daily_data_threshold ≡ wider)
    × (select_ttl c wider ≡ select_ttl c p)

module _ (c : MarketChartFetcherConfig) (t : ℕ) (g : t ≤ max_int)
    (k : c.daily_data_threshold ≡ pos t) (p : MarketChartParams) where
  kept : round_days c.daily_data_threshold p.days ≡ p.days → IsRounded c p
  unfolding round_up_market_chart_params
  kept e = rw (e, e) (inl refl, refl, refl)

  numbered :
      (n m : ℕ) (wider : String)
      → atoi p.days ≡ some (pos n)
      → round_days c.daily_data_threshold p.days ≡ wider
      → atoi wider ≡ some (pos m)
      → n ≤ m
      → leb_ℤ (pos n) (pos t) ≡ leb_ℤ (pos m) (pos t)
      → round_number (pos t) wider (some (pos m)) ≡ wider
      → IsRounded c p
  unfolding round_up_market_chart_params
  numbered n m wider a r b l same again =
      let once : round_days c.daily_data_threshold wider ≡ wider =
        round_days-number c.daily_data_threshold wider (pos m) b ∙ rw k again in
      rw (r, once)
        (
          inr (n, m, a, b, l),
          refl,
          select_ttl-number c (record p { days = wider }) (pos m) b
              ∙ sym (select_ttl-number c p (pos n) a ∙ rw (k, same) refl),
        )

  -- The request that is made for a valid one, for a threshold that is a number of days, covers the
  -- days asked for; rounding it again changes nothing; and its data have the time to live of the data
  -- asked for.
  pub round_up_market_chart_params-IsRounded : validate p ≡ none → IsRounded c p
  unfolding round_days
  round_up_market_chart_params-IsRounded h = elim ((validate_iff p).0 h).1 [
    | inl e ↦ kept (rw ((string_eq.same_iff p.days "").1 e) refl)
    | inr d ↦ elim d [
      | inl e ↦ kept (rw (e) refl)
      | inr v ↦
          let (n, a, l, u) = v in
          let first = round_days-number c.daily_data_threshold p.days (pos n) a in
          elim (Bool-cases (leb_ℤ (pos n) (pos t))) [
            | inl e ↦
                numbered n t (decimal (pos t)) a (first ∙ rw (k, e) refl) (atoi-decimal t g)
                  (ground (arith, e)) (e ∙ ground arith) (ground arith)
            | inr e ↦
                numbered n 365 "365" a (first ∙ rw (k, e) refl) number_of_year u
                  (e ∙ ground (arith, e, u)) (ground (arith, e, u))
          ]
    ]
  ]
