-- ===== src/Config/Examples.antt =====
-- Runs of the validation on concrete configurations.
use market_proxy.Prelude.{map, false, ◌≡◌, ◌≢◌, ◌↔◌, none, [], ◌∷◌, All, Pairs}
use market_proxy.Prelude.Int.{pos}
use market_proxy.Prelude.Text.{contains}
use market_proxy.Config.FetcherById.{
  FetcherByIdConfig, placeholder_id, placeholder_ids_list, generic_tier, validate_fetcher,
}
use market_proxy.Config.FetcherById.Accepted.{OneOf, validate_fetcher_iff}
use market_proxy.Config.Tiers.{Tier, validate_tiers}
use market_proxy.Config.Tiers.Valid.{IsSound, IsApart, validate_tiers_iff}

abbrev top : Tier
top = record { name = "top"; range_from = pos 1; range_to = pos 4; update_interval = pos 60 }

abbrev rest : Tier
rest = record { name = "rest"; range_from = pos 5; range_to = pos 20; update_interval = pos 600 }

validate_tiers_iff_example :
    (validate_tiers (rest ∷ top ∷ []) ≡ none)
    ↔ (((rest ∷ top ∷ []) ≢ []) × All IsSound (rest ∷ top ∷ []) × Pairs IsApart (rest ∷ top ∷ []))
validate_tiers_iff_example = validate_tiers_iff (rest ∷ top ∷ [])

-- The tokens of one page each by its id.
abbrev coins : FetcherByIdConfig
coins = record {
  name = "coins";
  endpoint_path = "/api/v3/coins/{{id}}";
  ttl = pos 0;
  chunk_size = pos 0;
  tiers =
      record {
        name = "all";
        id_from = pos 1;
        id_to = pos 50;
        update_interval = pos 60;
        fetch_coinslist_ids = false;
      }
      ∷ [];
}

validate_fetcher_iff_example : (validate_fetcher coins ≡ none) ↔ (
    (coins.name ≢ "")
    × (coins.endpoint_path ≢ "")
    × OneOf
        (contains coins.endpoint_path placeholder_id)
        (contains coins.endpoint_path placeholder_ids_list)
    × (map generic_tier coins.tiers ≢ [])
    × All IsSound (map generic_tier coins.tiers)
    × Pairs IsApart (map generic_tier coins.tiers))
validate_fetcher_iff_example = validate_fetcher_iff coins
