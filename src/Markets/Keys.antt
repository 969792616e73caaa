-- ===== src/Markets/Keys.antt =====
-- coingecko_markets/utils.go: the keys under which tokens and pages are cached.
use market_proxy.Prelude.{
  String, ◌≡◌, ap, Option, none, some, List, [], ◌∷◌, map, if◌then◌else◌, ◌==◌, string_eq, ◌++◌,
}
use market_proxy.Prelude.Int.{ℤ}
use market_proxy.Prelude.Text.{concat, cut_prefix, cut_prefix-concat}
use market_proxy.Prelude.Decimal.{decimal}
use market_proxy.Prelude.Sets.{is_in}
use market_proxy.Markets.Params.{MarketsParams}

abbrev pub cache_key_prefix : String
cache_key_prefix = "markets:"

abbrev pub cache_key_page_prefix : String
cache_key_page_prefix = "markets_page:"

unfoldable pub get_cache_key : String → String
get_cache_key token_id = concat cache_key_prefix token_id

unfoldable pub create_cache_keys : MarketsParams → List String
unfolding get_cache_key
create_cache_keys params = map get_cache_key params.ids

abbrev rest_or_empty : Option String → String
rest_or_empty none = ""
rest_or_empty (some rest) = rest

unfoldable pub extract_token_id_from_key : String → String
extract_token_id_from_key key = rest_or_empty (cut_prefix cache_key_prefix key)

abbrev add_token : String → List String → List String
add_token id set = if id == "" then set else (if is_in id set then set else set ++ id ∷ [])

collect_tokens : List String → List String → List String
unfolding extract_token_id_from_key
collect_tokens [] set = set
collect_tokens (key ∷ keys) set =
    collect_tokens keys (add_token (extract_token_id_from_key key) set)

-- `extractTokensFromKeys`; Go leaves the order of the result open.
unfoldable pub extract_tokens_from_keys : List String → List String
unfolding collect_tokens
extract_tokens_from_keys keys = collect_tokens keys []

unfoldable pub create_page_cache_key : ℤ → String
unfolding decimal
create_page_cache_key page_id = concat cache_key_page_prefix (decimal page_id)

abbrev pub cache_key_page_ids_prefix : String
cache_key_page_ids_prefix = "markets_page_ids:"

unfoldable pub create_page_ids_cache_key : ℤ → String
unfolding decimal
create_page_ids_cache_key page_id = concat cache_key_page_ids_prefix (decimal page_id)

-- The id of a token can be read back from its cache key.
pub extract_token_id_from_key-get_cache_key :
    (id : String) → extract_token_id_from_key (get_cache_key id) ≡ id
unfolding extract_token_id_from_key get_cache_key
extract_token_id_from_key-get_cache_key id =
    ap rest_or_empty (cut_prefix-concat cache_key_prefix id)
