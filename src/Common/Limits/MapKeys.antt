-- ===== src/Common/Limits/MapKeys.antt =====
-- The keys of the map of limiters in coingecko_common/rate_limiter_manager.go.
use market_proxy.Prelude.{String, ◌≡◌, refl, string_eq}
use market_proxy.Common.Keys.{KeyType, no_key, pro_key, demo_key}
use market_proxy.Common.Limits.{limiter_map_key, parse_key_type}

-- The type of a key can be read back from its place in the map, whatever the key is.
pub parse_key_type-limiter_map_key :
    (key : String) (t : KeyType) → parse_key_type (limiter_map_key key t) ≡ t
unfolding parse_key_type limiter_map_key
parse_key_type-limiter_map_key key pro_key = refl
parse_key_type-limiter_map_key key demo_key = refl
parse_key_type-limiter_map_key key no_key = refl
