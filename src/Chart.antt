-- ===== src/Chart.antt =====
-- coingecko_market_chart/types.go and roundup_request_utils.go: what a client asks of a chart, and the
-- wider request that is made of it.
pub mod Accepted
pub mod Rounding
pub mod Strip
pub mod Encoding
pub mod Serving
mod Examples
use market_proxy.Prelude.{
  String, Bool, true, false, ◌||◌, Option, none, some, List, [], ◌∷◌, ◌==◌, string_eq,
  if◌then◌else◌,
}
use market_proxy.Prelude.Int.{ℤ, pos, ltb_ℤ, leb_ℤ}
use market_proxy.Prelude.Sets.{is_in}
use market_proxy.Prelude.Decimal.{decimal, atoi}
use market_proxy.Prelude.Space.{trim_space, split_commas}
use market_proxy.Prelude.Errors.{Error, msg}

pub record MarketChartParams : Type 0 where
  pub id : String
  pub currency : String
  pub days : String
  pub interval : String
  pub data_filter : String

unfoldable pub trimmed_parts : List String → List String
trimmed_parts [] = []
trimmed_parts (filter ∷ filters) =
    let rest = trimmed_parts filters in
    if trim_space filter == "" then rest else trim_space filter ∷ rest

unfoldable pub parse_data_filters : String → List String
unfolding trimmed_parts
parse_data_filters data_filter =
    if trim_space data_filter == "" then [] else trimmed_parts (split_commas data_filter)

abbrev pub valid_intervals : List String
valid_intervals = "5m" ∷ "hourly" ∷ "daily" ∷ []

abbrev pub valid_fields : List String
valid_fields = "prices" ∷ "market_caps" ∷ "total_volumes" ∷ []

abbrev invalid_days : Error
invalid_days = msg "invalid days parameter, must be a number from 1 to 365 or 'max'"

abbrev pub check_number : Option ℤ → Option Error
check_number none = some invalid_days
check_number (some days) =
    if ltb_ℤ days (pos 1) || ltb_ℤ (pos 365) days then some invalid_days else none

unfoldable pub check_days : String → Option Error
check_days days =
    if days == "" then none else (if days == "max" then none else check_number (atoi days))

unfoldable pub check_interval : String → Option Error
check_interval interval =
    if interval == ""
    then none
    else (if is_in interval valid_intervals
        then none
        else some (msg "invalid interval parameter, must be one of: 5m, hourly, daily"))

-- The loop over the fields.
unfoldable pub check_fields : List String → Option Error
check_fields [] = none
check_fields (filter ∷ filters) =
    let rest = check_fields filters in
    if is_in filter valid_fields
    then rest
    else some
        (msg "invalid data_filter parameter, must contain only: prices, market_caps, total_volumes")

abbrev pub or_next : Option Error → Option Error → Option Error
or_next (some e) next = some e
or_next none next = next

-- `Validate`
unfoldable pub validate : MarketChartParams → Option Error
unfolding check_days check_interval check_fields
validate p =
    if trim_space p.id == ""
    then some (msg "coin ID is required")
    else or_next (check_days p.days) (
        or_next (check_interval p.interval)
          (if p.data_filter == "" then none else check_fields (parse_data_filters p.data_filter)))

abbrev pub round_number : ℤ → String → Option ℤ → String
round_number threshold days none = days
round_number threshold days (some n) = if leb_ℤ n threshold then decimal threshold else "365"

unfoldable pub round_days : ℤ → String → String
round_days threshold days =
    if days == ""
    then days
    else (if days == "max" then days else round_number threshold days (atoi days))

-- `RoundUpMarketChartParams`
unfoldable pub round_up_market_chart_params : MarketChartParams → ℤ → MarketChartParams
unfolding round_days
round_up_market_chart_params params daily_data_threshold = record params {
  days = round_days daily_data_threshold params.days;
}
