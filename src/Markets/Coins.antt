-- ===== src/Markets/Coins.antt =====
-- coingecko_markets/types.go and utils.go: the coins that the updater keeps, from the fetched tokens.
--
-- `F` is float64, with its zero, and `truncate` is the conversion to `int`. A decoded JSON value never
-- holds a Go `int`, for which `getIntFromMap` has a case.
use market_proxy.Prelude.{String, Option, some, List, [], ◌∷◌}
use market_proxy.Prelude.Int.{ℤ, pos}
use market_proxy.Json.{Json, Fields, num, str, obj, get_field}

pub record CoinGeckoData (F : Type 0) : Type 0 where
  pub id : String
  pub symbol : String
  pub name : String
  pub image : String
  pub current_price : F
  pub market_cap : F
  pub market_cap_rank : ℤ
  pub fully_diluted_valuation : F
  pub total_volume : F
  pub high_24h : F
  pub low_24h : F
  pub price_change_24h : F
  pub price_change_percentage_24h : F
  pub market_cap_change_24h : F
  pub market_cap_change_percentage_24h : F
  pub circulating_supply : F
  pub total_supply : F
  pub max_supply : F
  pub ath : F
  pub ath_change_percentage : F
  pub ath_date : String
  pub atl : F
  pub atl_change_percentage : F
  pub atl_date : String
  pub roi : Option (Json F)
  pub last_updated : String

module _ {F : Type 0} where
  abbrev string_or_empty : Option (Json F) → String
  string_or_empty (some (str s)) = s
  string_or_empty _ = ""

  unfoldable pub get_string_from_map : Fields F → String → String
  get_string_from_map m key = string_or_empty (get_field key m)

module _ {F : Type 0} (zero_float : F) (truncate : F → ℤ) where
  abbrev float_or_zero : Option (Json F) → F
  float_or_zero (some (num f)) = f
  float_or_zero _ = zero_float

  unfoldable pub get_float_from_map : Fields F → String → F
  get_float_from_map m key = float_or_zero (get_field key m)

  abbrev int_or_zero : Option (Json F) → ℤ
  int_or_zero (some (num f)) = truncate f
  int_or_zero _ = pos 0

  unfoldable pub get_int_from_map : Fields F → String → ℤ
  get_int_from_map m key = int_or_zero (get_field key m)

  -- The conversion of one item.
  unfoldable pub coin_of : Fields F → CoinGeckoData F
  unfolding get_string_from_map get_float_from_map get_int_from_map
  coin_of m = record {
    id = get_string_from_map m "id";
    symbol = get_string_from_map m "symbol";
    name = get_string_from_map m "name";
    image = get_string_from_map m "image";
    current_price = get_float_from_map m "current_price";
    market_cap = get_float_from_map m "market_cap";
    market_cap_rank = get_int_from_map m "market_cap_rank";
    fully_diluted_valuation = get_float_from_map m "fully_diluted_valuation";
    total_volume = get_float_from_map m "total_volume";
    high_24h = get_float_from_map m "high_24h";
    low_24h = get_float_from_map m "low_24h";
    price_change_24h = get_float_from_map m "price_change_24h";
    price_change_percentage_24h = get_float_from_map m "price_change_percentage_24h";
    market_cap_change_24h = get_float_from_map m "market_cap_change_24h";
    market_cap_change_percentage_24h = get_float_from_map m "market_cap_change_percentage_24h";
    circulating_supply = get_float_from_map m "circulating_supply";
    total_supply = get_float_from_map m "total_supply";
    max_supply = get_float_from_map m "max_supply";
    ath = get_float_from_map m "ath";
    ath_change_percentage = get_float_from_map m "ath_change_percentage";
    ath_date = get_string_from_map m "ath_date";
    atl = get_float_from_map m "atl";
    atl_change_percentage = get_float_from_map m "atl_change_percentage";
    atl_date = get_string_from_map m "atl_date";
    roi = get_field "roi" m;
    last_updated = get_string_from_map m "last_updated";
  }

  abbrev put_coin : Option (Json F) → List (CoinGeckoData F) → List (CoinGeckoData F)
  put_coin (some (obj m)) rest = coin_of m ∷ rest
  put_coin _ rest = rest

  -- `ConvertMarketsResponseToCoinGeckoData`: what cannot be decoded, or is no map, is left out.
  unfoldable pub convert_markets_response :
      (String → Option (Json F)) → List String → List (CoinGeckoData F)
  unfolding coin_of
  convert_markets_response unmarshal [] = []
  convert_markets_response unmarshal (token_bytes ∷ rest) =
      put_coin (unmarshal token_bytes) (convert_markets_response unmarshal rest)
