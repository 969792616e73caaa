-- ===== src/ById/Updater/Update.antt =====
-- fetcher_by_id/periodic_updater.go: what one update of a tier fetches and hands over.
--
-- What an update calls back is a list. The error of the callback is left out, because `onDataUpdated`
-- has none to return.
use market_proxy.Prelude.{
  ℕ, ◌+◌, String, Bool, true, Option, none, some, List, [], ◌∷◌, ◌++◌, string_eq, if◌then◌else◌,
  length, take, drop,
}
use market_proxy.Prelude.Int.{pos, pos_part, ltb_ℤ, leb_ℤ, ◌-ℤ◌}
use market_proxy.Prelude.Maps.{Map, lookup, insert, merge}
use market_proxy.Prelude.Errors.{Error, msg, Result, ok, err}
use market_proxy.Config.FetcherById.{GenericTier, FetcherByIdConfig}
use market_proxy.ById.{Fetching, fetch_data}
use market_proxy.ById.Updater.{TierState, Updater, fetcher_of, set_tier_updating}

-- The ids of a tier; none where the update ends without them.
unfoldable pub tier_ids : GenericTier → List String → Option (List String)
tier_ids tier all_ids =
    let from_index = tier.id_from -ℤ pos 1 in
    let wanted = tier.id_to -ℤ pos 1 in
    let available = pos (length all_ids) in
    let to_index = if leb_ℤ available wanted then available -ℤ pos 1 else wanted in
    if ltb_ℤ from_index (pos 0)
    then none
    else (if leb_ℤ available from_index
        then none
        else (if ltb_ℤ wanted from_index
            then none
            else some (
                take (pos_part (to_index -ℤ from_index) + 1) (drop (pos_part from_index) all_ids))))

abbrev pub updated : ℕ → Option TierState → String → Map String TierState → Map String TierState
updated now none name states = states
updated now (some s) name states = insert name (record s { last_update = some now }) states

-- The ids that are not among those that were fetched.
unfoldable pub not_fetched : List String → Map String String → List String
not_fetched [] existing = []
not_fetched (id ∷ ids) existing =
    let rest = not_fetched ids existing in
    elim (lookup id existing) [ none ↦ id ∷ rest | some data_ ↦ rest ]

module _ {W : Type 0} (fetch_single : String → W → Result String × W)
    (fetch_batch : List String → W → Result (Map String String) × W) (done : ℕ → Bool)
    (c : FetcherByIdConfig) where
  abbrev pub fetch_ids : List String → W → Result (Map String String) × Fetching W
  fetch_ids ids w = fetch_data fetch_single fetch_batch done (fetcher_of c) ids w

  abbrev pub fetch_missing : List String → W → Result (Map String String) × Fetching W
  fetch_missing [] w = (ok [], record { world = w; chunks = [] })
  fetch_missing (id ∷ ids) w = fetch_ids (id ∷ ids) w

  -- `fetchExtraIds`, for what the provider of extra ids answers, if it is set.
  unfoldable pub fetch_extra_ids :
      Option (Result (List String))
      → Map String String
      → W
      → Result (Map String String) × Fetching W
  unfolding not_fetched
  fetch_extra_ids none existing w = (ok [], record { world = w; chunks = [] })
  fetch_extra_ids (some (err e)) existing w = (err e, record { world = w; chunks = [] })
  fetch_extra_ids (some (ok extra_ids)) existing w =
      fetch_missing (not_fetched extra_ids existing) w

  -- The error of the extra ids is logged.
  abbrev pub with_data :
      Map String String
      → List (Map String String)
      → Result (Map String String) × Fetching W
      → Map String String × List (Map String String) × W
  with_data found calls (err e, f) = (found, calls ++ f.chunks, f.world)
  with_data found calls (ok extra, f) = (merge found extra, calls ++ f.chunks, f.world)

  abbrev pub with_extra :
      GenericTier
      → Option (Result (List String))
      → Map String String
      → Fetching W
      → Map String String × List (Map String String) × W
  with_extra tier provided found f =
      if tier.fetch_coinslist_ids
      then with_data found f.chunks (fetch_extra_ids provided found f.world)
      else (found, f.chunks, f.world)

  abbrev pub handed_over :
      GenericTier
      → ℕ
      → Updater
      → Map String String × List (Map String String) × W
      → Option Error × Updater × List (Map String String) × W
  handed_over tier now u ([], calls, w) = (some (msg "failed to fetch any data"), u, calls, w)
  handed_over tier now u (item ∷ items, calls, w) = (
    none,
    record u {
      tier_states = updated now (lookup tier.name u.tier_states) tier.name u.tier_states;
      initialized = true;
    },
    calls ++ (item ∷ items) ∷ [],
    w,
  )

  abbrev pub after_fetch :
      GenericTier
      → ℕ
      → Option (Result (List String))
      → Updater
      → Result (Map String String) × Fetching W
      → Option Error × Updater × List (Map String String) × W
  after_fetch tier now provided u (err e, f) = (some e, u, f.chunks, f.world)
  after_fetch tier now provided u (ok found, f) =
      handed_over tier now u (with_extra tier provided found f)

  abbrev pub update_ids :
      GenericTier
      → ℕ
      → Option (Result (List String))
      → Updater
      → Option (List String)
      → W
      → Option Error × Updater × List (Map String String) × W
  update_ids tier now provided u none w = (none, u, [], w)
  update_ids tier now provided u (some ids) w = after_fetch tier now provided u (fetch_ids ids w)

  abbrev pub ended :
      GenericTier
      → Option Error × Updater × List (Map String String) × W
      → Option Error × Updater × List (Map String String) × W
  ended tier (e, u, calls, w) = (e, set_tier_updating tier.name none u, calls, w)

  -- `fetchAndUpdateTier`, from its start at `began` to its success at `now`.
  unfoldable pub fetch_and_update_tier :
      GenericTier
      → ℕ
      → ℕ
      → List String
      → Option (Result (List String))
      → Updater
      → W
      → Option Error × Updater × List (Map String String) × W
  unfolding tier_ids set_tier_updating fetch_extra_ids
  fetch_and_update_tier tier began now all_ids provided u w = ended tier (
      update_ids tier now provided (set_tier_updating tier.name (some began) u)
        (tier_ids tier all_ids) w)
