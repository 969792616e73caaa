-- ===== src/Markets/UpdateExamples.antt =====
-- Runs of the fetching side of coingecko_markets on concrete inputs.
use market_proxy.Prelude.{
  ℕ, zero, suc, String, ◌≡◌, ◌≢◌, refl, ◌↔◌, inl, inr, true, false, Option, none, some, List, [],
  ◌∷◌, In, arith, different, string_eq, if◌then◌else◌,
}
use market_proxy.Prelude.Int.{pos}
use market_proxy.Prelude.Maps.{Map, lookup}
use market_proxy.Prelude.Sets.{IsDistinct, IsWithin}
use market_proxy.Prelude.Errors.{msg, Result, ok, err}
use market_proxy.Config.Markets.{MarketParamsNormalize, MarketTier}
use market_proxy.Markets.Params.{MarketsParams}
use market_proxy.Markets.Paging.{PaginatedFetcher, new_paginated_fetcher}
use market_proxy.Markets.Updater.{
  TierDataWithTimestamp, fetch, reset_start, check_and_update_tiers, set_tier_update_start_time,
}
use market_proxy.Markets.Updater.Schedule.{Wanted, check_and_update_tiers_iff}
use market_proxy.Markets.Updater.Waiting.{
  Write, marks, stores, after_writes, begun_update_excludes, late_reset_reopens,
}
use market_proxy.Markets.Updater.FirstLoad.{names, after_updates, initial_load_once}

abbrev asked : MarketsParams
asked = record {
  currency = "eur";
  order = "";
  page = pos 1;
  per_page = pos 100;
  category = "";
  ids = "bitcoin" ∷ [];
  sparkline_enabled = false;
  price_change_percentage = [];
}

abbrev in_dollars : Option MarketParamsNormalize
in_dollars = some (record {
  vs_currency = some "usd";
  order = none;
  per_page = some (pos 250);
  sparkline = none;
  price_change_percentage = some "1h,24h";
  category = none;
})

-- Three pages are asked for, the second of which fails.
abbrev second_fails : MarketsParams → ℕ → Result (List String) × ℕ
second_fails p n = if_first n
  where
    if_first : ℕ → Result (List String) × ℕ
    if_first zero = (ok ("a" ∷ "b" ∷ []), 1)
    if_first (suc n) = (err (msg "status 500"), suc (suc n))

abbrev three_pages : PaginatedFetcher
three_pages = new_paginated_fetcher (pos 1) (pos 3) (pos 0) asked

abbrev tier_of : String → MarketTier
tier_of name = record {
  name = name;
  page_from = pos 1;
  page_to = pos 2;
  update_interval = pos 60_000_000_000;
  fetch_coinslist_ids = false;
}

abbrev two_tiers : List MarketTier
two_tiers = tier_of "top" ∷ tier_of "rest" ∷ []

-- The update of the first tier has been running from the start.
abbrev running : TierDataWithTimestamp String
running = record { coins = []; timestamp = none; update_start_time = some 0 }

abbrev one_running : Map String (TierDataWithTimestamp String)
one_running = ("top", running) ∷ []

check_and_update_tiers_iff_example :
    In (fetch (tier_of "rest")) (check_and_update_tiers 1_000 two_tiers one_running)
    ↔ (In (tier_of "rest") two_tiers × Wanted 1_000 (tier_of "rest") (lookup "rest" one_running))
check_and_update_tiers_iff_example =
    check_and_update_tiers_iff 1_000 two_tiers one_running (tier_of "rest")

two_tiers-IsDistinct : IsDistinct (names two_tiers)
two_tiers-IsDistinct = ((different "top" "rest" refl, tt), (tt, tt))

abbrev three_updates : List String
three_updates = "top" ∷ "rest" ∷ "top" ∷ []

initial_load_once_example :
    (((after_updates two_tiers three_updates).0.all_completed ≡ true)
      ↔ IsWithin (names two_tiers) three_updates)
    × ((after_updates two_tiers three_updates).1
        ≡ (if (after_updates two_tiers three_updates).0.all_completed then 1 else 0))
initial_load_once_example =
    initial_load_once two_tiers two_tiers-IsDistinct three_updates (λ e. absurd cc)
      (inl refl, (inr (inl refl), (inl refl, tt)))

-- The update of the other tier begins, stores and ends.
abbrev rest_updated : List (Write String)
rest_updated = marks "rest" (some 1) ∷ stores "rest" 5 ("coin" ∷ []) ∷ marks "rest" none ∷ []

rest_is_apart : ◌≢◌ {A = String} "rest" "top"
rest_is_apart = different "rest" "top" refl

begun_update_excludes_example : ¬ In (fetch (tier_of "top")) (
    check_and_update_tiers 599_000_000_000 two_tiers
      (after_writes rest_updated (set_tier_update_start_time "top" (some 0) one_running)))
begun_update_excludes_example =
    begun_update_excludes 0 599_000_000_000 two_tiers one_running (tier_of "top") rest_updated
      (rest_is_apart, (rest_is_apart, (rest_is_apart, tt))) (omega arith)

late_reset_reopens_example :
    In (fetch (tier_of "top")) (check_and_update_tiers 601_000_000_000 two_tiers one_running)
    × In (reset_start "top") (check_and_update_tiers 601_000_000_000 two_tiers one_running)
    × In (fetch (tier_of "top")) (
        check_and_update_tiers 603_000_000_000 two_tiers (
          set_tier_update_start_time "top" none
            (set_tier_update_start_time "top" (some 601_000_000_000) one_running)))
unfolding lookup
late_reset_reopens_example =
    late_reset_reopens 601_000_000_000 601_000_000_000 603_000_000_000 two_tiers one_running
      (tier_of "top") running (inl refl) refl ((omega arith), (omega arith)) (omega arith)
      (omega arith)
