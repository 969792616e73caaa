-- ===== src/Config/FetcherById.antt =====
-- config/fetcher_by_id_config.go
pub mod Accepted
use market_proxy.Prelude.{
  String, Bool, true, false, not, ◌&&◌, Option, some, List, [], ◌∷◌, map, ◌==◌, string_eq,
  if◌then◌else◌,
}
use market_proxy.Prelude.Int.{ℤ, pos, ltb_ℤ, leb_ℤ}
use market_proxy.Prelude.Text.{concat, contains}
use market_proxy.Prelude.Errors.{Error, msg}
use market_proxy.Config.Tiers.{Tier, validate_tiers, wrap_error}

pub data FetchMode : Type 0 where
  single batch : FetchMode

abbrev pub placeholder_id : String
placeholder_id = "{{id}}"

abbrev pub placeholder_ids_list : String
placeholder_ids_list = "{{ids_list}}"

pub record GenericTier : Type 0 where
  pub name : String
  pub id_from : ℤ
  pub id_to : ℤ
  pub update_interval : ℤ
  pub fetch_coinslist_ids : Bool

-- The query parameters are those of `BuildQueryParams`, as text.
pub record FetcherByIdConfig : Type 0 where
  pub name : String
  pub endpoint_path : String
  pub ttl : ℤ
  pub chunk_size : ℤ
  pub tiers : List GenericTier

unfoldable pub get_fetch_mode : FetcherByIdConfig → FetchMode
get_fetch_mode c = if contains c.endpoint_path placeholder_ids_list then batch else single

unfoldable pub is_batch_mode : FetcherByIdConfig → Bool
unfolding get_fetch_mode
is_batch_mode c = elim (get_fetch_mode c) [ batch ↦ true | single ↦ false ]

unfoldable pub has_tiers : FetcherByIdConfig → Bool
has_tiers c = elim c.tiers [ [] ↦ false | t ∷ ts ↦ true ]

unfoldable pub get_chunk_size : FetcherByIdConfig → ℤ
get_chunk_size c = if leb_ℤ c.chunk_size (pos 0) then pos 100 else c.chunk_size

-- Five minutes by default.
unfoldable pub get_ttl : FetcherByIdConfig → ℤ
get_ttl c = if leb_ℤ c.ttl (pos 0) then pos 300_000_000_000 else c.ttl

-- `GetCacheKeyPrefix` is the name.
unfoldable pub build_cache_key : FetcherByIdConfig → String → String
build_cache_key c id = concat c.name (concat ":id:" id)

unfoldable pub max_id_to : ℤ → List GenericTier → ℤ
max_id_to max_to [] = max_to
max_id_to max_to (t ∷ ts) = max_id_to (if ltb_ℤ max_to t.id_to then t.id_to else max_to) ts

unfoldable pub get_max_id_limit : FetcherByIdConfig → ℤ
unfolding max_id_to
get_max_id_limit c =
    let max_to = max_id_to (pos 0) c.tiers in if ltb_ℤ (pos 0) max_to then max_to else pos 1000

abbrev pub generic_tier : GenericTier → Tier
generic_tier t = record {
  name = t.name;
  range_from = t.id_from;
  range_to = t.id_to;
  update_interval = t.update_interval;
}

-- `Validate` of `FetcherByIdConfig`
unfoldable pub validate_fetcher : FetcherByIdConfig → Option Error
unfolding has_tiers
validate_fetcher c =
    let has_single = contains c.endpoint_path placeholder_id in
    let has_batch = contains c.endpoint_path placeholder_ids_list in
    if c.name == ""
    then some (msg "name is required")
    else if c.endpoint_path == ""
    then some (msg "endpoint_path is required")
    else if not has_single && not has_batch
    then some (msg "endpoint_path must contain a placeholder")
    else if has_single && has_batch
    then some (msg "endpoint_path cannot contain both placeholders")
    else if not (has_tiers c)
    then some (msg "tiers configuration is required")
    else wrap_error "tier configuration validation failed"
        (validate_tiers (map generic_tier c.tiers))
