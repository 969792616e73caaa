-- ===== src/Common/Limits/Examples.antt =====
-- Witnesses for the limiters: a Pro key, a Demo key, and a configuration that changes the Pro keys.
use market_proxy.Prelude.{◌≡◌, refl, Option, some, [], ◌∷◌, string_eq}
use market_proxy.Prelude.Int.{pos}
use market_proxy.Common.Keys.{pro_key, demo_key}
use market_proxy.Common.Limits.{
  ApiKeyConfig, RateLimit, RateLimiterManager, Limiter, Url, limiter_map_key, changed,
  get_limiter_for_key, set_config,
}
use market_proxy.Common.Limits.Configured.{limiter_kept}

abbrev defaults : RateLimit
defaults = record { rate_limit_per_minute = pos 0; burst = pos 0 }

abbrev slow_pro : ApiKeyConfig
slow_pro = record {
  pro = record { rate_limit_per_minute = pos 90; burst = pos 0 };
  demo = defaults;
  nokey = defaults;
}

-- A Demo key with the default of 30 calls a minute.
abbrev demo_only : RateLimiterManager
demo_only = record {
  key_to_limiter = ("type:demo|key:d1", record { made_as = 0; per_minute = 30; burst = 1 }) ∷ [];
  config = record { pro = defaults; demo = defaults; nokey = defaults };
  made = 1;
}

abbrev some_url : Option Url
some_url = some (record { query_get = λ name. ""; hostname = "api.coingecko.com" })

limiter_kept_example :
    (get_limiter_for_key "d1" demo_key (
      set_config slow_pro
        (get_limiter_for_key "p1" pro_key (get_limiter_for_key "d1" demo_key demo_only).1).1)).0
    ≡ (get_limiter_for_key "d1" demo_key demo_only).0
limiter_kept_example = limiter_kept demo_only "d1" "p1" demo_key pro_key slow_pro refl
