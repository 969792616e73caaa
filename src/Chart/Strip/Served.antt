-- ===== src/Chart/Strip/Served.antt =====
-- What coingecko_market_chart/strip_response_utils.go serves under each key, point by point.
use market_proxy.Prelude.{
  ℕ, ◌/◌, ◌*◌, ◌<◌, ◌^◌, String, ◌≡◌, ◌⊎◌, inl, inr, Bool, true, false, Option, none, some, List,
  [], ◌∷◌, string_eq, Bool-cases, Option-cases, arith,
}
use market_proxy.Prelude.Int.{ℤ, pos, ◌-ℤ◌}
use market_proxy.Prelude.Maps.{Map, lookup}
use market_proxy.Prelude.Decimal.{atoi}
use market_proxy.Json.{Json}
use market_proxy.Chart.{MarketChartParams}
use market_proxy.Chart.Strip.{
  Value, decoded, points, cutoff, filter_data_points, filter_chart_data_by_timestamp,
  strip_market_chart_response,
}
use market_proxy.Chart.Strip.Kept.{is_asked, recent, lookup-strip_market_chart_response}

-- The milliseconds since 1970, `days` days of 24 hours before `now`.
abbrev pub days_before : ℕ → ℕ → ℤ
days_before now days = pos (now / 1_000_000_000 * 1000) -ℤ pos (days * 86_400_000)

-- The days are no number, or one whose milliseconds are an int64.
abbrev pub IsDays : String → Type 0
IsDays s = (atoi s ≡ none) ⊎ ((days : ℕ) × (atoi s ≡ some (pos days)) × (days < 10_000_000_000))

cutoff-days :
    (now days : ℕ)
    → now < 2 ^ 63
    → days < 10_000_000_000
    → cutoff now (pos days) ≡ days_before now days
unfolding cutoff
cutoff-days now days h l = ground arith

module _ {F : Type 0} (points_of : Json F → Option (List (F × F))) (at_least : F → ℤ → Bool) where
  -- The second list is the first without the points that are before the cutoff.
  pub data IsFiltered (cut : ℤ) : List (F × F) → List (F × F) → Type 0 where
    nothing : IsFiltered cut [] []
    kept :
        {point : F × F} {all left : List (F × F)}
        → at_least point.0 cut ≡ true
        → IsFiltered cut all left
        → IsFiltered cut (point ∷ all) (point ∷ left)
    dropped :
        {point : F × F} {all left : List (F × F)}
        → at_least point.0 cut ≡ false
        → IsFiltered cut all left
        → IsFiltered cut (point ∷ all) left

  -- The second value is the first, if that is no list of points, or what is left of its points.
  pub data IsCut (cut : ℤ) : Value F → Value F → Type 0 where
    no_points : {j : Json F} → points_of j ≡ none → IsCut cut (decoded j) (decoded j)
    of_decoded :
        {j : Json F} {all left : List (F × F)}
        → points_of j ≡ some all
        → IsFiltered cut all left
        → IsCut cut (decoded j) (points left)
    of_points :
        {all left : List (F × F)} → IsFiltered cut all left → IsCut cut (points all) (points left)

  -- What is served under a key: nothing, if the key was not asked for or the chart does not have it;
  -- and else its value, cut to the number of days, if the days are a number.
  pub data Serves (now : ℕ) (p : MarketChartParams) (key : String) (m : Map String (Value F))
      : Option (Value F) → Type 0 where
    not_asked : is_asked p key ≡ false → Serves now p key m none
    absent : is_asked p key ≡ true → lookup key m ≡ none → Serves now p key m none
    whole :
        {v : Value F}
        → is_asked p key ≡ true
        → lookup key m ≡ some v
        → atoi p.days ≡ none
        → Serves now p key m (some v)
    cut_to :
        {v v' : Value F} {days : ℕ}
        → is_asked p key ≡ true
        → lookup key m ≡ some v
        → atoi p.days ≡ some (pos days)
        → IsCut (days_before now days) v v'
        → Serves now p key m (some v')

  filter_data_points-IsFiltered :
      (all : List (F × F)) (cut : ℤ)
      → IsFiltered cut all (filter_data_points points_of at_least all cut)
  unfolding filter_data_points
  filter_data_points-IsFiltered [] cut = nothing
  filter_data_points-IsFiltered (point ∷ all) cut = elim (Bool-cases (at_least point.0 cut)) [
    | inl e ↦ rw e (kept e (filter_data_points-IsFiltered all cut))
    | inr e ↦ rw e (dropped e (filter_data_points-IsFiltered all cut))
  ]

  filter_chart_data_by_timestamp-IsCut :
      (cut : ℤ) (v : Value F)
      → IsCut cut v (filter_chart_data_by_timestamp points_of at_least cut v)
  unfolding filter_chart_data_by_timestamp
  filter_chart_data_by_timestamp-IsCut cut (points all) =
      of_points (filter_data_points-IsFiltered all cut)
  filter_chart_data_by_timestamp-IsCut cut (decoded j) = elim (Option-cases (points_of j)) [
    | inl e ↦ rw e (no_points e)
    | inr (all, e) ↦ rw e (of_decoded e (filter_data_points-IsFiltered all cut))
  ]

  recent-Serves :
      (now : ℕ) (p : MarketChartParams) (m : Map String (Value F)) (key : String) (v : Value F)
      → now < 2 ^ 63
      → IsDays p.days
      → is_asked p key ≡ true
      → lookup key m ≡ some v
      → Serves now p key m (some (recent points_of at_least now p.days v))
  recent-Serves now p m key v h (inl none_) asked found = rw none_ (whole asked found none_)
  recent-Serves now p m key v h (inr (days, some_, l)) asked found =
      rw (some_, cutoff-days now days h l)
        (cut_to asked found some_ (filter_chart_data_by_timestamp-IsCut (days_before now days) v))

  -- For a clock within an int64, and days that are no number or fewer than ten milliards: of a chart
  -- every key that was asked for is served, and no other; with exactly the points from the asked
  -- number of days before the clock on, if the days are a number, and else unchanged.
  pub strip_market_chart_response-Serves :
      (now : ℕ) (p : MarketChartParams) (m : Map String (Value F)) (key : String)
      → now < 2 ^ 63
      → IsDays p.days
      → Serves now p key m (lookup key (strip_market_chart_response points_of at_least now p m))
  strip_market_chart_response-Serves now p m key h days =
      rw (lookup-strip_market_chart_response points_of at_least now p m key)
        (elim (Bool-cases (is_asked p key)) [
          | inr n ↦ rw n (not_asked n)
          | inl y ↦ elim (Option-cases (lookup key m)) [
            | inl e ↦ rw (y, e) (absent y e)
            | inr (v, e) ↦ rw (y, e) (recent-Serves now p m key v h days y e)
          ]
        ])
