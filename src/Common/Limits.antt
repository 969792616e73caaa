-- ===== src/Common/Limits.antt =====
-- coingecko_common/rate_limiter_manager.go and config/api_key_settings.go: one limiter for each key.
--
-- A `rate.Limiter` of golang.org/x/time is what `rate.NewLimiter` was called with, and a number that
-- tells it from the others: two calls make two limiters. The limit is written in requests per minute.
-- The source divides it by 60 in floating point, and rounds the burst up: for fewer than 2^46
-- requests per minute this is the rounding up of the exact quotient, which stands here.
pub mod MapKeys
pub mod Configured
mod Examples
use Prim.Native.Char.{code}
use market_proxy.Prelude.{
  ℕ, ◌+◌, ◌/◌, String, Bool, true, false, ◌||◌, not, Option, none, some, List, [], ◌∷◌, ◌==◌,
  string_eq, nat_beq, leb, if◌then◌else◌,
}
use market_proxy.Prelude.Int.{ℤ, pos, pos_part, ltb_ℤ, leb_ℤ, int_eq}
use market_proxy.Prelude.Maps.{Map, lookup, insert}
use market_proxy.Prelude.Text.{concat, cut_prefix}
use market_proxy.Common.Keys.{KeyType, no_key, pro_key, demo_key}

-- `config.RateLimit`
pub record RateLimit : Type 0 where
  pub rate_limit_per_minute : ℤ
  pub burst : ℤ

-- `config.APIKeyConfig`; its field `NoKey` is `nokey`.
pub record ApiKeyConfig : Type 0 where
  pub pro : RateLimit
  pub demo : RateLimit
  pub nokey : RateLimit

pub record Limiter : Type 0 where
  pub made_as : ℕ
  pub per_minute : ℕ
  pub burst : ℕ

-- `RateLimiterManager`; `made` counts the calls of `rate.NewLimiter`.
pub record RateLimiterManager : Type 0 where
  pub key_to_limiter : Map String Limiter
  pub config : ApiKeyConfig
  pub made : ℕ

abbrev pub default_pro_rpm : ℕ
default_pro_rpm = 500

abbrev pub default_demo_rpm : ℕ
default_demo_rpm = 30

abbrev pub default_no_key_rpm : ℕ
default_no_key_rpm = 30

abbrev nothing_set : RateLimit
nothing_set = record { rate_limit_per_minute = pos 0; burst = pos 0 }

-- `GetRateLimiterManagerInstance` makes the only manager.
unfoldable pub new_rate_limiter_manager : RateLimiterManager
new_rate_limiter_manager = record {
  key_to_limiter = [];
  config = record { pro = nothing_set; demo = nothing_set; nokey = nothing_set };
  made = 0;
}

abbrev pub key_type_string : KeyType → String
key_type_string pro_key = "pro"
key_type_string demo_key = "demo"
key_type_string no_key = "none"

unfoldable pub limiter_map_key : String → KeyType → String
limiter_map_key key key_type =
    concat "type:" (concat (key_type_string key_type) (concat "|key:" key))

abbrev bar : ℕ
bar = 124

abbrev with_front : String → Option String → Option String
with_front front none = none
with_front front (some s) = some (concat front s)

-- The text before the first bar, if there is a bar.
abbrev pub before_bar : String → Option String
before_bar String.[] = none
before_bar (String.◌∷◌ c s) =
    let rest = before_bar s in
    if nat_beq (code c) bar then some String.[] else with_front (String.◌∷◌ c String.[]) rest

-- The `switch`; an empty text, for which the source has a test of its own, is none of the three.
abbrev pub named_type : Option String → KeyType
named_type none = no_key
named_type (some t) = if t == "pro" then pro_key else if t == "demo" then demo_key else no_key

abbrev pub parse_rest : Option String → KeyType
parse_rest none = no_key
parse_rest (some rest) = named_type (before_bar rest)

unfoldable pub parse_key_type : String → KeyType
parse_key_type map_key = parse_rest (cut_prefix "type:" map_key)

abbrev pub settings : ApiKeyConfig → KeyType → RateLimit
settings config pro_key = config.pro
settings config demo_key = config.demo
settings config no_key = config.nokey

abbrev pub default_rpm : KeyType → ℕ
default_rpm pro_key = default_pro_rpm
default_rpm demo_key = default_demo_rpm
default_rpm no_key = default_no_key_rpm

-- `limitForTypeLocked`, in requests per minute.
unfoldable pub limit_for_type : ApiKeyConfig → KeyType → ℕ
limit_for_type config t =
    let rpm = (settings config t).rate_limit_per_minute in
    if leb_ℤ rpm (pos 0) then default_rpm t else pos_part rpm

unfoldable pub default_burst_for_limit : ℕ → ℕ
default_burst_for_limit per_minute = if leb per_minute 60 then 1 else (per_minute + 59) / 60

unfoldable pub burst_for_type : ApiKeyConfig → KeyType → ℕ → ℕ
unfolding default_burst_for_limit
burst_for_type config t limit =
    let b = (settings config t).burst in
    if ltb_ℤ (pos 0) b then pos_part b else default_burst_for_limit limit

-- `rate.NewLimiter(limit, burst)` for a type.
unfoldable pub new_limiter : ℕ → ApiKeyConfig → KeyType → Limiter
unfolding limit_for_type burst_for_type
new_limiter made config t = record {
  made_as = made;
  per_minute = limit_for_type config t;
  burst = burst_for_type config t (limit_for_type config t);
}

abbrev pub keep_or_make :
    String → KeyType → Option Limiter → RateLimiterManager → Limiter × RateLimiterManager
keep_or_make map_key t (some l) m = (l, m)
keep_or_make map_key t none m = (
  new_limiter m.made m.config t,
  record m {
    key_to_limiter = insert map_key (new_limiter m.made m.config t) m.key_to_limiter;
    made = m.made + 1;
  },
)

-- `getLimiterForKey`: the test is made again under the second lock, so that a call is one step.
unfoldable pub get_limiter_for_key :
    String → KeyType → RateLimiterManager → Limiter × RateLimiterManager
unfolding new_limiter limiter_map_key
get_limiter_for_key key t m =
    let map_key = limiter_map_key key t in
    keep_or_make map_key t (lookup map_key m.key_to_limiter) m

-- A `*url.URL`, by the calls of its methods: the query parameters, and the host.
pub record Url : Type 0 where
  pub query_get : String → String
  pub hostname : String

abbrev for_caller : Limiter × RateLimiterManager → Option Limiter × RateLimiterManager
for_caller (l, m) = (some l, m)

unfoldable pub get_limiter_for_url :
    Option Url → RateLimiterManager → Option Limiter × RateLimiterManager
unfolding get_limiter_for_key
get_limiter_for_url none m = (none, m)
get_limiter_for_url (some u) m =
    let pro = u.query_get "x_cg_pro_api_key" in
    let demo = u.query_get "x_cg_demo_api_key" in
    if not (pro == "")
    then for_caller (get_limiter_for_key pro pro_key m)
    else if not (demo == "")
    then for_caller (get_limiter_for_key demo demo_key m)
    else if u.hostname == "api.coingecko.com" || u.hostname == "pro-api.coingecko.com"
    then for_caller (get_limiter_for_key "" no_key m)
    else (none, m)

abbrev differs : RateLimit → RateLimit → Bool
differs old new =
    not (old.rate_limit_per_minute == new.rate_limit_per_minute) || not (old.burst == new.burst)

-- `changed`, for the type of a key.
unfoldable pub changed : ApiKeyConfig → ApiKeyConfig → KeyType → Bool
changed old new t = differs (settings old t) (settings new t)

-- The loop of `SetConfig`.
unfoldable pub rebuild_limiters :
    ApiKeyConfig → ApiKeyConfig → ℕ → Map String Limiter → Map String Limiter × ℕ
unfolding changed parse_key_type new_limiter
rebuild_limiters old new made [] = ([], made)
rebuild_limiters old new made ((map_key, l) ∷ rest) =
    let t = parse_key_type map_key in
    let again = changed old new t in
    let (rebuilt, made') = rebuild_limiters old new (if again then made + 1 else made) rest in
    ((map_key, if again then new_limiter made new t else l) ∷ rebuilt, made')

unfoldable pub set_config : ApiKeyConfig → RateLimiterManager → RateLimiterManager
unfolding rebuild_limiters
set_config new_cfg m =
    let r = rebuild_limiters m.config new_cfg m.made m.key_to_limiter in
    record { key_to_limiter = r.0; config = new_cfg; made = r.1 }
