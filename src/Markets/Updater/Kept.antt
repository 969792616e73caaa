-- ===== src/Markets/Updater/Kept.antt =====
-- What an update in coingecko_markets/periodic_updater.go leaves behind, and which extra ids it fetches.
use market_proxy.Prelude.{
  ℕ, String, ◌≡◌, refl, ap, ◌∙◌, inl, inr, Bool, true, Option, none, some, List, [], ◌∷◌, ◌==◌,
  string_eq, if◌then◌else◌, Bool-cases,
}
use market_proxy.Prelude.Int.{ℤ, ltb_ℤ}
use market_proxy.Prelude.Maps.{Map, lookup, lookup-insert}
use market_proxy.Prelude.Errors.{Error, Result, ok, err}
use market_proxy.Json.{Json}
use market_proxy.Config.Markets.{MarketTier, MarketsFetcherConfig}
use market_proxy.Markets.Data.{PageData}
use market_proxy.Markets.Coins.{CoinGeckoData, convert_markets_response}
use market_proxy.Markets.Params.{MarketsParams}
use market_proxy.Markets.Paging.{items_of}
use market_proxy.Markets.Updater.{
  TierDataWithTimestamp, since, started, set_tier_update_start_time, store_tier,
  check_and_trigger_initial_load_completed,
}
use market_proxy.Markets.Updater.Update.{
  Updater, Callback, Paged, has_coin, tier_pages, after_pages, marked, ended, fetch_and_update_tier,
}

module _ {F : Type 0} where
  -- The first tier that has a coin of the id decides.
  abbrev pub first_decides :
      ℤ → ℕ → String → Map String (TierDataWithTimestamp (CoinGeckoData F)) → Bool
  first_decides half now id [] = true
  first_decides half now id ((name, d) ∷ tiers) =
      let rest = first_decides half now id tiers in
      if has_coin id d.coins then ltb_ℤ half (since now d.timestamp) else rest

  abbrev pub missing_by_first :
      ℤ
      → ℕ
      → List String
      → (String → Map String (TierDataWithTimestamp (CoinGeckoData F)))
      → List String
  missing_by_first half now [] tiers = []
  missing_by_first half now (id ∷ ids) tiers =
      let rest = missing_by_first half now ids tiers in
      if first_decides half now id (tiers id) then id ∷ rest else rest

  set_start :
      (name asked : String) (start : Option ℕ)
      (tiers : Map String (TierDataWithTimestamp (CoinGeckoData F)))
      → lookup asked (set_tier_update_start_time name start tiers)
        ≡ (if name == asked then some (started start (lookup name tiers)) else lookup asked tiers)
  unfolding set_tier_update_start_time
  set_start name asked start tiers =
      lookup-insert name asked (started start (lookup name tiers)) tiers

  started_twice :
      (a b : Option ℕ) (o : Option (TierDataWithTimestamp (CoinGeckoData F)))
      → started b (some (started a o)) ≡ started b o
  started_twice a b none = refl
  started_twice a b (some d) = refl

  -- The mark at the begin and its removal at the end change only the mark.
  marked_twice :
      (name asked : String) (began : ℕ)
      (tiers : Map String (TierDataWithTimestamp (CoinGeckoData F)))
      → lookup asked (
          set_tier_update_start_time name none (set_tier_update_start_time name (some began) tiers))
        ≡ (if name == asked then some (started none (lookup name tiers)) else lookup asked tiers)
  marked_twice name asked began tiers =
      set_start name asked none (set_tier_update_start_time name (some began) tiers)
      ∙ rw
          (
            set_start name name (some began) tiers,
            set_start name asked (some began) tiers,
            (string_eq.same_iff name name).1 refl,
          )
          (elim (Bool-cases (name == asked)) [
            | inl e ↦ rw e (ap some (started_twice (some began) none (lookup name tiers)))
            | inr e ↦ rw e refl
          ])

  stored_over :
      (name asked : String) (began now : ℕ) (coins : List (CoinGeckoData F))
      (tiers : Map String (TierDataWithTimestamp (CoinGeckoData F)))
      → lookup asked (
          set_tier_update_start_time name none
            (store_tier name now coins (set_tier_update_start_time name (some began) tiers)))
        ≡ (if name == asked
            then some (record { coins = coins; timestamp = some now; update_start_time = none })
            else lookup asked tiers)
  unfolding store_tier
  stored_over name asked began now coins tiers =
      let begun = set_tier_update_start_time name (some began) tiers in
      let fresh : TierDataWithTimestamp (CoinGeckoData F) = record {
        coins = coins;
        timestamp = some now;
        update_start_time = none;
      } in
      set_start name asked none (store_tier name now coins begun)
      ∙ rw
          (
            lookup-insert name name fresh begun,
            lookup-insert name asked fresh begun,
            set_start name asked (some began) tiers,
            (string_eq.same_iff name name).1 refl,
          )
          (elim (Bool-cases (name == asked)) [ inl e ↦ rw e refl | inr e ↦ rw e refl ])

abbrev pub paging_result :
    {W : Type 0} → Option (Result (List PageData) × Paged W) → Option (Result (List PageData))
paging_result none = none
paging_result (some (r, s)) = some r

module _ {F W : Type 0} (unmarshal : String → Option (Json F)) (zero_float : F) (truncate : F → ℤ)
    (fetch_page : MarketsParams → W → Result (List String) × W) (sleep : ℤ → W → W)
    (done : ℕ → Bool) (c : MarketsFetcherConfig) where
  -- What is left of an update whose paging has this result: an error, and a panic, which is not
  -- returned, change nothing but the mark of the tier, and pages are the new data of the tier and count for the first load.
  abbrev pub IsUpdated :
      MarketTier
      → ℕ
      → String
      → Updater F
      → Option (Result (List PageData))
      → Option Error × Updater F × List Callback × W
      → Type 0
  IsUpdated tier now asked u none r =
      (r.0 ≡ none)
      × (lookup asked r.1.tiers ≡ (
          if tier.name == asked
          then some (started none (lookup tier.name u.tiers))
          else lookup asked u.tiers))
      × (r.1.initial_load ≡ u.initial_load)
  IsUpdated tier now asked u (some (err e)) r =
      (r.0 ≡ some e)
      × (lookup asked r.1.tiers ≡ (
          if tier.name == asked
          then some (started none (lookup tier.name u.tiers))
          else lookup asked u.tiers))
      × (r.1.initial_load ≡ u.initial_load)
  IsUpdated tier now asked u (some (ok pages)) r =
      (r.0 ≡ none)
      × (lookup asked r.1.tiers ≡ (
          if tier.name == asked
          then some (record {
            coins = convert_markets_response zero_float truncate unmarshal (items_of pages);
            timestamp = some now;
            update_start_time = none;
          })
          else lookup asked u.tiers))
      × (r.1.initial_load
          ≡ (check_and_trigger_initial_load_completed c.tiers tier.name u.initial_load).0)

  ended-IsUpdated :
      (tier : MarketTier) (began now : ℕ) (asked : String) (u : Updater F) (w : W)
      (r : Option (Result (List PageData) × Paged W))
      → IsUpdated tier now asked u (paging_result r) (
          ended unmarshal zero_float truncate fetch_page sleep done c tier (
            after_pages unmarshal zero_float truncate fetch_page sleep done c tier now
              (marked unmarshal zero_float truncate fetch_page sleep done c tier.name
                (some began)
                u)
              w
              r))
  ended-IsUpdated tier began now asked u w none =
      (refl, marked_twice tier.name asked began u.tiers, refl)
  ended-IsUpdated tier began now asked u w (some (err e, s)) =
      (refl, marked_twice tier.name asked began u.tiers, refl)
  ended-IsUpdated tier began now asked u w (some (ok pages, s)) = (
    refl,
    stored_over tier.name asked began now
        (convert_markets_response zero_float truncate unmarshal (items_of pages)) u.tiers,
    refl,
  )

  -- An update leaves each tier as the result of its paging says, whatever becomes of the extra ids.
  pub fetch_and_update_tier-IsUpdated :
      (tier : MarketTier) (began now : ℕ) (asked : String) (u : Updater F) (w : W)
      → IsUpdated tier now asked u
          (paging_result (tier_pages unmarshal zero_float truncate fetch_page sleep done c tier w))
          (fetch_and_update_tier unmarshal zero_float truncate fetch_page sleep done c tier began
            now u w)
  unfolding fetch_and_update_tier
  fetch_and_update_tier-IsUpdated tier began now asked u w =
      ended-IsUpdated tier began now asked u w
        (tier_pages unmarshal zero_float truncate fetch_page sleep done c tier w)
