-- ===== src/Chart/Strip.antt =====
-- coingecko_market_chart/strip_response_utils.go: of a wider chart, what a client asked for.
--
-- `points_of` is `json.Marshal` and then `json.Unmarshal` into points, and `at_least` compares a float
-- with an int64. A nil slice and an empty one are one list. The clock is in nanoseconds, and its
-- time zone is UTC: in a zone with summer time `time.AddDate` may differ by the hour of the change.
pub mod Kept
pub mod Served
use market_proxy.Prelude.{
  ℕ, ◌-◌, ◌/◌, ◌%◌, ◌^◌, ltb, String, Bool, Option, none, some, List, [], ◌∷◌, ◌==◌, string_eq,
  if◌then◌else◌,
}
use market_proxy.Prelude.Int.{ℤ, pos, negsuc, ◌-ℤ◌, ◌*ℤ◌}
use market_proxy.Prelude.Maps.{Map}
use market_proxy.Prelude.Sets.{is_in}
use market_proxy.Prelude.Decimal.{atoi}
use market_proxy.Prelude.Space.{split_commas}
use market_proxy.Json.{Json}
use market_proxy.Chart.{MarketChartParams, trimmed_parts}

-- An `interface{}` of the answer: as it was decoded, or as points that are left.
pub data Value (F : Type 0) : Type 0 where
  decoded : Json F → Value F
  points : List (F × F) → Value F

module _ {F : Type 0} where
  -- The loop over the keys of the answer.
  unfoldable pub only_allowed : List String → Map String (Value F) → Map String (Value F)
  only_allowed allowed [] = []
  only_allowed allowed ((key, data_) ∷ rest) =
      let others = only_allowed allowed rest in
      if is_in key allowed then (key, data_) ∷ others else others

  -- `filterByDataKeys`
  unfoldable pub filter_by_data_keys : Map String (Value F) → String → Map String (Value F)
  unfolding only_allowed
  filter_by_data_keys response_data data_filter =
      if data_filter == ""
      then response_data
      else only_allowed (trimmed_parts (split_commas data_filter)) response_data

abbrev signed : ℕ → ℤ
signed n = if ltb n (2 ^ 63) then pos n else pos n -ℤ pos (2 ^ 64)

-- What an int64 makes of a number.
abbrev wrap_int64 : ℤ → ℤ
wrap_int64 (pos n) = signed (n % 2 ^ 64)
wrap_int64 (negsuc n) = signed (2 ^ 64 - 1 - n % 2 ^ 64)

-- `time.Now().AddDate(0, 0, -days).Unix() * 1000`, at the time `now`.
unfoldable pub cutoff : ℕ → ℤ → ℤ
cutoff now days = wrap_int64 ((pos (now / 1_000_000_000) -ℤ days *ℤ pos 86_400) *ℤ pos 1000)

module _ {F : Type 0} (points_of : Json F → Option (List (F × F))) (at_least : F → ℤ → Bool) where
  -- `filterDataPoints`; its one caller asks for no least number of points.
  unfoldable pub filter_data_points : List (F × F) → ℤ → List (F × F)
  filter_data_points [] cutoff_timestamp = []
  filter_data_points (point ∷ data_points) cutoff_timestamp =
      let filtered = filter_data_points data_points cutoff_timestamp in
      if at_least point.0 cutoff_timestamp then point ∷ filtered else filtered

  abbrev pub filtered_or : Json F → ℤ → Option (List (F × F)) → Value F
  filtered_or data_ cutoff_timestamp none = decoded data_
  filtered_or data_ cutoff_timestamp (some data_points) =
      points (filter_data_points data_points cutoff_timestamp)

  -- `filterChartDataByTimestamp`; what are no points stays as it is.
  unfoldable pub filter_chart_data_by_timestamp : ℤ → Value F → Value F
  unfolding filter_data_points
  filter_chart_data_by_timestamp cutoff_timestamp (decoded data_) =
      filtered_or data_ cutoff_timestamp (points_of data_)
  filter_chart_data_by_timestamp cutoff_timestamp (points data_points) =
      points (filter_data_points data_points cutoff_timestamp)

  unfoldable pub filter_each : ℤ → Map String (Value F) → Map String (Value F)
  filter_each cutoff_time [] = []
  filter_each cutoff_time ((key, data_) ∷ rest) =
      (key, filter_chart_data_by_timestamp cutoff_time data_) ∷ filter_each cutoff_time rest

  abbrev pub filter_number : ℕ → Map String (Value F) → Option ℤ → Map String (Value F)
  filter_number now response_data none = response_data
  filter_number now response_data (some days) = filter_each (cutoff now days) response_data

  -- `filterByDays`
  unfoldable pub filter_by_days : ℕ → Map String (Value F) → String → Map String (Value F)
  unfolding filter_each
  filter_by_days now response_data days_str = filter_number now response_data (atoi days_str)

  -- `StripMarketChartResponse`, which has no error to return.
  unfoldable pub strip_market_chart_response :
      ℕ → MarketChartParams → Map String (Value F) → Map String (Value F)
  unfolding filter_by_data_keys filter_by_days
  strip_market_chart_response now p rounded_response =
      let result = filter_by_data_keys rounded_response p.data_filter in
      if p.days == "max"
      then result
      else (if p.days == "" then result else filter_by_days now result p.days)
