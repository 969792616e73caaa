-- ===== src/Prices/Strip.antt =====
-- coingecko_prices/strip_utils.go: of the cached prices, what a client asked for.
--
-- `atoi` is `strconv.Atoi`, and `round` is `roundToPrecision` for a positive precision, which only
-- computes with floats.
pub mod Included
pub mod Served
use market_proxy.Prelude.{
  String, Bool, true, false, ◌&&◌, not, Option, none, some, List, [], ◌∷◌, ◌==◌, string_eq,
  if◌then◌else◌,
}
use market_proxy.Prelude.Int.{ℤ, pos, ltb_ℤ}
use market_proxy.Prelude.Maps.{Map}
use market_proxy.Prelude.Sets.{is_in}
use market_proxy.Prelude.Suffix.{cut_suffix}
use market_proxy.Json.{Json, Fields, num, obj, end, field}
use market_proxy.Prices.Data.{PriceParams}

-- The test of one of the three suffixes; without the suffix the tests go on.
abbrev pub by_suffix : Bool → Option String → List String → Bool → Bool
by_suffix false o currencies otherwise = otherwise
by_suffix true none currencies otherwise = otherwise
by_suffix true (some currency) currencies otherwise = is_in currency currencies

unfoldable pub should_include_field : String → List String → PriceParams → Bool
should_include_field field_name requested params =
    if is_in field_name requested
    then true
    else by_suffix params.include_market_cap (cut_suffix "_market_cap" field_name) requested (
        by_suffix params.include_24hr_vol (cut_suffix "_24h_vol" field_name) requested (
          by_suffix params.include_24hr_change (cut_suffix "_24h_change" field_name) requested
            (params.include_last_updated_at && field_name == "last_updated_at")))

unfoldable pub is_numeric_field : String → Bool
is_numeric_field field_name = not (field_name == "last_updated_at")

abbrev positive_part : Option ℤ → ℤ
positive_part none = pos 0
positive_part (some p) = if ltb_ℤ (pos 0) p then p else pos 0

module _ {F : Type 0} (atoi : String → Option ℤ) (round : ℤ → F → F) where
  unfoldable pub precision_of : PriceParams → ℤ
  precision_of params =
      if params.precision == "" then pos 0 else positive_part (atoi params.precision)

  abbrev pub round_number : ℤ → Json F → Json F
  round_number precision (num value) = num (round precision value)
  round_number precision j = j

  unfoldable pub rounded : ℤ → String → Json F → Json F
  unfolding is_numeric_field
  rounded precision field_name value =
      if ltb_ℤ (pos 0) precision && is_numeric_field field_name
      then round_number precision value
      else value

  -- The loop over the fields of a token.
  unfoldable pub filter_fields : PriceParams → ℤ → Fields F → Fields F
  unfolding should_include_field rounded
  filter_fields params precision end = end
  filter_fields params precision (field name value fs) =
      let rest = filter_fields params precision fs in
      if should_include_field name params.currencies params
      then field name (rounded precision name value) rest
      else rest

  abbrev pub add_token : String → Fields F → Map String (Json F) → Map String (Json F)
  add_token token_id end rest = rest
  add_token token_id (field name value fs) rest = (token_id, obj (field name value fs)) ∷ rest

  abbrev pub strip_token :
      PriceParams → ℤ → String → Json F → Map String (Json F) → Map String (Json F)
  strip_token params precision token_id (obj fs) rest =
      add_token token_id (filter_fields params precision fs) rest
  strip_token params precision token_id j rest = rest

  -- The loop over the tokens.
  unfoldable pub strip_each : PriceParams → ℤ → Map String (Json F) → Map String (Json F)
  unfolding filter_fields
  strip_each params precision [] = []
  strip_each params precision ((token_id, token_data) ∷ rest) =
      strip_token params precision token_id token_data (strip_each params precision rest)

  -- `stripResponse`
  unfoldable pub strip_response : Map String (Json F) → PriceParams → Map String (Json F)
  unfolding strip_each precision_of
  strip_response cached_response params = strip_each params (precision_of params) cached_response
