-- ===== src/Prices/Data.antt =====
-- interfaces/coingecko_prices.go and coingecko_prices/utils.go: the parameters of a request for
-- prices, and the keys under which prices are cached.
use market_proxy.Prelude.{
  String, ℕ, Bool, true, List, [], ◌∷◌, ◌++◌, map, nat_beq, ◌==◌, string_eq, if◌then◌else◌,
}
use market_proxy.Prelude.Text.{concat}
use market_proxy.Prelude.Sets.{is_in}
use Prim.Native.Char.{code}

pub record PriceParams : Type 0 where
  pub ids : List String
  pub currencies : List String
  pub include_market_cap : Bool
  pub include_24hr_vol : Bool
  pub include_24hr_change : Bool
  pub include_last_updated_at : Bool
  pub precision : String

-- `createCacheKeys` and `extractTokensFromKeys` are called by tests alone; the service has a key of
-- its own, `createTokenIDCacheKey`.
unfoldable pub create_cache_keys : PriceParams → List String
create_cache_keys params = map (concat "simple_price:") params.ids

-- `strings.Split` at colons, from its second part on: what stands behind the first colon, up to the
-- next one.
abbrev colon : ℕ
colon = 58

abbrev pub up_to_colon : String → String
up_to_colon String.[] = String.[]
up_to_colon (String.◌∷◌ c s) =
    let rest = up_to_colon s in if nat_beq (code c) colon then String.[] else String.◌∷◌ c rest

unfoldable pub extract_token_id_from_key : String → String
extract_token_id_from_key String.[] = ""
extract_token_id_from_key (String.◌∷◌ c s) =
    let later = extract_token_id_from_key s in
    if nat_beq (code c) colon then up_to_colon s else later

abbrev pub add_token : String → List String → List String
add_token id set = if id == "" then set else (if is_in id set then set else set ++ id ∷ [])

unfoldable pub extract_tokens_from_keys : List String → List String → List String
unfolding extract_token_id_from_key
extract_tokens_from_keys [] set = set
extract_tokens_from_keys (key ∷ keys) set =
    extract_tokens_from_keys keys (add_token (extract_token_id_from_key key) set)

-- `createTokenIDCacheKey`
unfoldable pub create_token_id_cache_key : String → String
create_token_id_cache_key token_id = concat "price:id:" token_id

-- `getConfigCurrencies`, which the updater and the service both have.
unfoldable pub get_config_currencies : List String → List String
get_config_currencies [] = "usd" ∷ "eur" ∷ "btc" ∷ "eth" ∷ []
get_config_currencies (c ∷ cs) = c ∷ cs

-- What the updater asks for.
unfoldable pub all_fields : List String → List String → PriceParams
all_fields ids currencies = record {
  ids = ids;
  currencies = currencies;
  include_market_cap = true;
  include_24hr_vol = true;
  include_24hr_change = true;
  include_last_updated_at = true;
  precision = "";
}
