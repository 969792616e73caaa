-- ===== src/Prices/Updater/Update.antt =====
-- coingecko_prices/periodic_updater.go: what one update of a tier fetches, stores and hands over.
use market_proxy.Prelude.{
  ℕ, ◌-◌, ◌/◌, String, Bool, true, Option, none, some, List, [], ◌∷◌, ◌++◌, ◌==◌, nat_eq, string_eq,
  if◌then◌else◌, length, take, drop,
}
use market_proxy.Prelude.Int.{ℤ, pos, pos_part, milliseconds, ltb_ℤ, leb_ℤ, ◌-ℤ◌, ◌+ℤ◌}
use market_proxy.Prelude.Maps.{Map, lookup, insert}
use market_proxy.Prelude.Errors.{Error, Result, ok, err}
use market_proxy.Config.Prices.{PriceTier, PricesFetcherConfig, prices_ttl}
use market_proxy.Markets.Updater.{since}
use market_proxy.Prices.Data.{PriceParams, all_fields, get_config_currencies}
use market_proxy.Prices.Chunks.{
  ChunksFetcher, Fetching, new_chunks_fetcher, default_chunk_size, default_request_delay,
  fetch_prices,
}
use market_proxy.Prices.Updater.{TierDataWithTimestamp, Updater, set_tier_update_start_time}

-- `ids[from : to]`, where `to` is at most the length; it panics at a negative or reversed range.
unfoldable pub slice : ℤ → ℤ → List String → Option (List String)
slice from to ids =
    if ltb_ℤ from (pos 0)
    then none
    else if ltb_ℤ to from
    then none
    else some (take (pos_part to - pos_part from) (drop (pos_part from) ids))

-- One behind `toIndex`, which is kept below the number of ids.
unfoldable pub end_index : ℕ → ℤ → ℤ
end_index available wanted =
    (if leb_ℤ (pos available) wanted then pos available -ℤ pos 1 else wanted) +ℤ pos 1

-- From the two indices.
unfoldable pub ids_between : ℤ → ℤ → List String → Option (List String)
unfolding slice end_index
ids_between from_index wanted ids =
    if length ids == 0
    then none
    else if leb_ℤ (pos (length ids)) from_index
    then none
    else slice from_index (end_index (length ids) wanted) ids

-- The ids of a tier: `none` where the update ends without them, because there are no ids, or the
-- tier begins behind the last, or (for a tier that the validation refuses) the slice panics.
unfoldable pub tier_token_ids : PriceTier → List String → Option (List String)
unfolding ids_between
tier_token_ids tier ids = ids_between (tier.token_from -ℤ pos 1) (tier.token_to -ℤ pos 1) ids

-- The price of an id in the first tier that has it, in the order in which `range` meets the tiers:
-- is it older than half the TTL?
abbrev pub half_ttl : PricesFetcherConfig → ℤ
half_ttl c = pos (pos_part (prices_ttl c) / 2)

abbrev pub stale_in : ℤ → ℕ → TierDataWithTimestamp → Bool
stale_in half now d = ltb_ℤ half (since now d.timestamp)

unfoldable pub is_missing_or_stale : ℤ → ℕ → String → Map String TierDataWithTimestamp → Bool
is_missing_or_stale half now id [] = true
is_missing_or_stale half now id ((name, d) ∷ tiers) = elim (lookup id d.prices) [
  | some price ↦ stale_in half now d
  | none ↦ is_missing_or_stale half now id tiers
]

-- `findMissingOrStaleIds`
unfoldable pub find_missing_or_stale_ids :
    ℤ → ℕ → List String → Map String TierDataWithTimestamp → List String
unfolding is_missing_or_stale
find_missing_or_stale_ids half now [] tiers = []
find_missing_or_stale_ids half now (id ∷ ids) tiers =
    let rest = find_missing_or_stale_ids half now ids tiers in
    if is_missing_or_stale half now id tiers then id ∷ rest else rest

-- The chunk fetcher of an update.
unfoldable pub fetcher_of : PricesFetcherConfig → ChunksFetcher
fetcher_of c =
    let ms = milliseconds c.request_delay in
    new_chunks_fetcher (if leb_ℤ c.chunk_size (pos 0) then default_chunk_size else c.chunk_size)
      (if ltb_ℤ ms (pos 0) then default_request_delay else ms)

-- What an update calls in goroutines.
pub data Callback : Type 0 where
  on_top_prices_updated : PriceTier → Map String String → Callback
  on_missing_extra_ids_updated : Map String String → Callback

abbrev pub call_each : (Map String String → Callback) → List (Map String String) → List Callback
call_each f [] = []
call_each f (chunk ∷ chunks) = f chunk ∷ call_each f chunks

-- `now` is the time of the success, and of the search for missing ids.
module _ {W : Type 0} (fetch_from : W → PriceParams → Result (Map String String) × W)
    (done : ℕ → Bool) (c : PricesFetcherConfig) where
  abbrev pub fetch_ids : List String → W → Result (Map String String) × Fetching W
  fetch_ids ids w =
      fetch_prices fetch_from done (fetcher_of c)
        (all_fields ids (get_config_currencies c.currencies)) w

  abbrev pub missing_result : Result (Map String String) × Fetching W → List Callback × W
  missing_result (err e, f) = (call_each on_missing_extra_ids_updated f.chunks, f.world)
  missing_result (ok [], f) = (call_each on_missing_extra_ids_updated f.chunks, f.world)
  missing_result (ok (p ∷ ps), f) = (
    call_each on_missing_extra_ids_updated f.chunks ++ on_missing_extra_ids_updated (p ∷ ps) ∷ [],
    f.world,
  )

  abbrev pub fetch_some_missing : List String → W → List Callback × W
  fetch_some_missing [] w = ([], w)
  fetch_some_missing (id ∷ ids) w = missing_result (fetch_ids (id ∷ ids) w)

  -- `fetchMissingExtraIds` and what the update does with its result.
  unfoldable pub fetch_missing_extra_ids : ℕ → Updater → W → List Callback × W
  unfolding find_missing_or_stale_ids
  fetch_missing_extra_ids now u w =
      fetch_some_missing (find_missing_or_stale_ids (half_ttl c) now u.extra_ids u.tiers) w

  abbrev pub stored : String → ℕ → Map String String → Updater → Updater
  stored name now prices u = record u {
    tiers =
        insert name (record { prices = prices; timestamp = some now; update_start_time = none })
          u.tiers;
  }

  abbrev pub with_missing : PriceTier → ℕ → Updater → W → List Callback × W
  with_missing tier now u w =
      if tier.fetch_coinslist_ids then fetch_missing_extra_ids now u w else ([], w)

  abbrev pub after_fetch :
      PriceTier
      → ℕ
      → Updater
      → Result (Map String String) × Fetching W
      → Option Error × Updater × List Callback × W
  after_fetch tier now u (err e, f) =
      (some e, u, call_each (on_top_prices_updated tier) f.chunks, f.world)
  after_fetch tier now u (ok prices, f) =
      let u' = stored tier.name now prices u in
      let (calls, w) = with_missing tier now u' f.world in
      (
        none,
        u',
        call_each (on_top_prices_updated tier) f.chunks
            ++ calls
            ++ on_top_prices_updated tier prices ∷ [],
        w,
      )

  abbrev pub update_ids :
      PriceTier
      → ℕ
      → Updater
      → Option (List String)
      → W
      → Option Error × Updater × List Callback × W
  update_ids tier now u none w = (none, u, [], w)
  update_ids tier now u (some ids) w = after_fetch tier now u (fetch_ids ids w)

  abbrev pub ended :
      PriceTier
      → Option Error × Updater × List Callback × W
      → Option Error × Updater × List Callback × W
  ended tier (e, u, calls, w) = (e, set_tier_update_start_time tier.name none u, calls, w)

  -- `fetchAndUpdateTier`, from its start at `began`.
  unfoldable pub fetch_and_update_tier :
      PriceTier → ℕ → ℕ → Updater → W → Option Error × Updater × List Callback × W
  unfolding set_tier_update_start_time tier_token_ids
  fetch_and_update_tier tier began now u w =
      let u' = set_tier_update_start_time tier.name (some began) u in
      ended tier (update_ids tier now u' (tier_token_ids tier u'.top_market_ids) w)
