-- ===== src/Config/Tiers.antt =====
-- The validation of tiers, which coingecko_markets_config.go, coingecko_prices_config.go and
-- fetcher_by_id_config.go write out three times over tiers whose range has different names.
pub mod Valid
use market_proxy.Prelude.{
  ℕ, String, Bool, true, false, Option, none, some, List, [], ◌∷◌, map, ◌==◌, string_eq,
  if◌then◌else◌,
}
use market_proxy.Prelude.Int.{ℤ, pos, ltb_ℤ, leb_ℤ}
use market_proxy.Prelude.Errors.{Error, msg, wrapped}

-- A range of pages, tokens or ids, with the interval in nanoseconds.
pub record Tier : Type 0 where
  pub name : String
  pub range_from : ℤ
  pub range_to : ℤ
  pub update_interval : ℤ

-- `sort.Slice` by the lower end. Its order among equal ends is left open by Go; two tiers with
-- equal ends overlap, and are refused in either order.
unfoldable pub insert_tier : Tier → List Tier → List Tier
insert_tier t [] = t ∷ []
insert_tier t (u ∷ us) =
    if leb_ℤ t.range_from u.range_from then t ∷ u ∷ us else u ∷ insert_tier t us

unfoldable pub sort_tiers : List Tier → List Tier
unfolding insert_tier
sort_tiers [] = []
sort_tiers (t ∷ ts) = insert_tier t (sort_tiers ts)

-- The tests on one tier.
unfoldable pub check_tier : Tier → Option Error
check_tier t =
    if t.name == ""
    then some (msg "name cannot be empty")
    else if leb_ℤ t.range_from (pos 0)
    then some (msg "range must begin above 0")
    else if ltb_ℤ t.range_to t.range_from
    then some (msg "range must not end before it begins")
    else if leb_ℤ t.update_interval (pos 0)
    then some (msg "update_interval must be greater than 0")
    else none

-- The test against the tier before it, if there is one.
unfoldable pub check_overlap : Option Tier → Tier → Option Error
check_overlap none t = none
check_overlap (some prev) t =
    if leb_ℤ t.range_from prev.range_to then some (msg "range overlaps") else none

abbrev pub or_else : Option Error → Option Error → Option Error
or_else none later = later
or_else (some e) later = some e

-- The loop over the sorted tiers.
unfoldable pub check_sorted : Option Tier → List Tier → Option Error
check_sorted prev [] = none
check_sorted prev (t ∷ ts) =
    or_else (check_tier t) (or_else (check_overlap prev t) (check_sorted (some t) ts))

abbrev pub wrap_error : String → Option Error → Option Error
wrap_error s none = none
wrap_error s (some e) = some (wrapped s e)

unfoldable pub validate_tiers : List Tier → Option Error
validate_tiers [] = some (msg "at least one tier must be configured")
validate_tiers (t ∷ ts) = check_sorted none (sort_tiers (t ∷ ts))
