-- ===== src/Chart/Examples.antt =====
-- Requests for charts.
use market_proxy.Prelude.{
  ℕ, ◌+◌, ◌≤◌, ◌<◌, ◌^◌, ap, sym, ◌∙◌, different, String, ◌≡◌, refl, Bool, string_eq, inr, Option,
  none, some, List, [], ◌∷◌, arith,
}
use market_proxy.Prelude.Int.{ℤ, pos, pos_part, leb_ℤ, ◌<ℤ◌}
use market_proxy.Prelude.Maps.{Map, lookup, IsGoMap}
use market_proxy.Prelude.Decimal.{atoi, digits_from, digits, decimal}
use market_proxy.Prelude.Space.{trim_space, trim_left, trim_right, split_commas}
use market_proxy.Prelude.Errors.{Result, ok}
use market_proxy.Json.{Json, str}
use market_proxy.Cache.{get, get_each}
use market_proxy.Cache.MapStore.{map_store, map_store-IsGoCache}
use market_proxy.Config.Chart.{get_default_market_chart_config}
use market_proxy.Chart.{
  MarketChartParams, validate, check_days, check_interval, check_fields, parse_data_filters,
  trimmed_parts, round_up_market_chart_params, round_days,
}
use market_proxy.Chart.Rounding.{IsRounded, round_up_market_chart_params-IsRounded}
use market_proxy.Chart.Encoding.{write_map, read_map, read_map-write_map}
use market_proxy.Chart.Strip.{Value, decoded, strip_market_chart_response}
use market_proxy.Chart.Strip.Served.{IsDays, Serves, strip_market_chart_response-Serves}
use market_proxy.Chart.Serving.{
  create_cache_key, with_defaults, rounded_params, select_ttl, convert_bytes_to_interface,
  get_cached_data, market_chart,
}
use market_proxy.Chart.Serving.Shared.{IsReadBack, market_chart-shared}

abbrev week : MarketChartParams
week = record {
  id = "bitcoin";
  currency = "usd";
  days = "7";
  interval = "";
  data_filter = " prices,, market_caps ";
}

abbrev month : MarketChartParams
month = record { id = "bitcoin"; currency = ""; days = ""; interval = ""; data_filter = "" }

week_accepted : validate week ≡ none
unfolding validate check_days check_interval check_fields parse_data_filters trimmed_parts
    trim_space trim_left trim_right split_commas atoi digits_from
week_accepted = refl

month_accepted : validate month ≡ none
unfolding validate check_days check_interval check_fields trim_space trim_left trim_right
month_accepted = refl

round_up_market_chart_params-IsRounded_example : IsRounded get_default_market_chart_config week
round_up_market_chart_params-IsRounded_example =
    round_up_market_chart_params-IsRounded get_default_market_chart_config 90 (omega arith) refl
      week week_accepted

-- A chart is its points here, and a point its time.
abbrev points_in : Json ℕ → Option (List (ℕ × ℕ))
points_in j = some ((1, 10) ∷ (5, 11) ∷ [])

abbrev not_before : ℕ → ℤ → Bool
not_before n cut = leb_ℤ cut (pos n)

abbrev two_fields : Map String (Value ℕ)
two_fields = ("prices", decoded (str "p")) ∷ ("total_volumes", decoded (str "v")) ∷ []

eight_days : 700_000_000_000_000 < 2 ^ 63
eight_days = omega arith

seven : IsDays "7"
unfolding atoi digits_from
seven = inr (7, refl, omega arith)

strip_market_chart_response-Serves_example :
    Serves points_in not_before 700_000_000_000_000 week "prices" two_fields (
      lookup "prices"
        (strip_market_chart_response points_in not_before 700_000_000_000_000 week two_fields))
strip_market_chart_response-Serves_example =
    strip_market_chart_response-Serves points_in not_before 700_000_000_000_000 week two_fields
      "prices" eight_days seven

abbrev text_of : String → Option (Json ℕ)
text_of s = some (str s)

abbrev raw_chart : Map String String
raw_chart = ("prices", "p") ∷ ("market_caps", "m") ∷ ("total_volumes", "v") ∷ []

raw_chart-IsGoMap : IsGoMap raw_chart
raw_chart-IsGoMap = (
  (different "prices" "market_caps" refl, (different "prices" "total_volumes" refl, tt)),
  ((different "market_caps" "total_volumes" refl, tt), (tt, tt)),
)

abbrev written : Map String String → Result String
written raw = ok (write_map raw)

abbrev read : String → Option (Map String String)
read b = some (read_map b)

abbrev one_chart : MarketChartParams → ℕ → Result (Map String String) × ℕ
one_chart p n = (ok raw_chart, n + 1)

ok_same : (a b : String) → ok a ≡ ok b → a ≡ b
ok_same a b e = cc

read-written :
    IsReadBack text_of read written points_in not_before one_chart map_store
      get_default_market_chart_config
read-written raw b once m =
    let same : read_map b ≡ raw =
      ap read_map (sym (ok_same (write_map raw) b m)) ∙ read_map-write_map raw in
    (read_map b, refl, (λ key. rw same refl))

one_key :
    create_cache_key (rounded_params get_default_market_chart_config week)
    ≡ create_cache_key (rounded_params get_default_market_chart_config month)
unfolding create_cache_key rounded_params with_defaults round_up_market_chart_params round_days atoi
    digits_from decimal digits
one_key = refl

half_an_hour :
    select_ttl get_default_market_chart_config
      (rounded_params get_default_market_chart_config month)
    ≡ pos 1_800_000_000_000
unfolding select_ttl rounded_params with_defaults round_up_market_chart_params round_days atoi
    digits_from decimal digits
half_an_hour = refl

nothing_cached :
    get_cached_data text_of read map_store [] 5
      (create_cache_key (rounded_params get_default_market_chart_config month))
    ≡ none
unfolding get_cached_data get get_each lookup
nothing_cached = refl

lasting :
    pos 0
    <ℤ select_ttl get_default_market_chart_config
        (rounded_params get_default_market_chart_config month)
lasting = rw half_an_hour (omega arith)

in_time :
    9
    ≤ 5
      + pos_part (
          select_ttl get_default_market_chart_config
            (rounded_params get_default_market_chart_config month))
in_time = rw half_an_hour (omega arith)

abbrev asked :
    MarketChartParams
    → ℕ
    → map_store.State
    → ℕ
    → Result (Map String (Value ℕ)) × map_store.State × ℕ
asked p now s w =
    market_chart text_of read written points_in not_before one_chart map_store
      get_default_market_chart_config p now s w

market_chart-shared_example :
    (served : Map String (Value ℕ)) × (asked week 9 (asked month 5 [] 0).1 3
      ≡ (ok served, (asked month 5 [] 0).1, 3))
    × ((key : String)
        → lookup key served
          ≡ lookup key (
              strip_market_chart_response points_in not_before 9 week
                (convert_bytes_to_interface text_of raw_chart)))
market_chart-shared_example =
    market_chart-shared text_of read written points_in not_before one_chart map_store
      get_default_market_chart_config map_store-IsGoCache read-written 5 9 (omega arith) month
      lasting in_time [] 0 3 raw_chart 1 (write_map raw_chart) week raw_chart-IsGoMap month_accepted
      nothing_cached refl refl week_accepted one_key
