-- ===== src/Tokens.antt =====
-- coingecko_tokens/: the tokens of the supported platforms, in utils.go, service.go and
-- periodic_updater.go.
--
-- `fetch_tokens` is the API client, which passes on a state `W`.
pub mod Kept
mod Examples
use market_proxy.Prelude.{
  ℕ, ◌+◌, String, Bool, true, false, ◌||◌, not, Option, none, some, List, [], ◌∷◌, ◌==◌, nat_eq,
  string_eq, if◌then◌else◌, length,
}
use market_proxy.Prelude.Maps.{Map, lookup, insert}
use market_proxy.Prelude.Sets.{is_in}
use market_proxy.Prelude.Errors.{Error, wrapped, Result, ok, err}
use market_proxy.Events.{SubscriptionManager, Outcome, emitted}

pub record Token : Type 0 where
  pub id : String
  pub symbol : String
  pub name : String
  pub platforms : Map String String

unfoldable pub filtered_platforms : List String → Map String String → Map String String
filtered_platforms supported [] = []
filtered_platforms supported ((platform, address) ∷ platforms) =
    let rest = filtered_platforms supported platforms in
    if is_in platform supported then (platform, address) ∷ rest else rest

abbrev pub is_kept : List String → Token → Bool
is_kept supported t =
    is_in t.id supported || not (length (filtered_platforms supported t.platforms) == 0)

-- `FilterTokensByPlatform`
unfoldable pub filter_tokens_by_platform : List String → List Token → List Token
unfolding filtered_platforms
filter_tokens_by_platform supported [] = []
filter_tokens_by_platform supported (t ∷ tokens) =
    let rest = filter_tokens_by_platform supported tokens in
    if is_kept supported t
    then record t { platforms = filtered_platforms supported t.platforms } ∷ rest
    else rest

abbrev pub counted : Option ℕ → ℕ
counted none = 0
counted (some n) = n

unfoldable pub count_platforms : Map String ℕ → Map String String → Map String ℕ
count_platforms counts [] = counts
count_platforms counts ((platform, address) ∷ platforms) =
    count_platforms (insert platform (counted (lookup platform counts) + 1) counts) platforms

-- The loop of `CountTokensByPlatform`, which starts with an empty map.
unfoldable pub count_tokens_by_platform : Map String ℕ → List Token → Map String ℕ
unfolding count_platforms
count_tokens_by_platform counts [] = counts
count_tokens_by_platform counts (t ∷ tokens) =
    count_tokens_by_platform (count_platforms counts t.platforms) tokens

-- The parts of `Service` and `PeriodicUpdater` that change.
pub record Service : Type 0 where
  pub tokens : List Token
  pub token_ids : List String
  pub initialized : Bool
  pub subscription_manager : Outcome SubscriptionManager

unfoldable pub ids_of : List Token → List String
ids_of [] = []
ids_of (t ∷ tokens) = let rest = ids_of tokens in if t.id == "" then rest else t.id ∷ rest

-- `onTokensUpdated`, which has no error to return.
unfoldable pub on_tokens_updated : (ℕ → Bool) → List Token → Service → Service
unfolding ids_of
on_tokens_updated quits tokens s = record s {
  tokens = tokens;
  token_ids = ids_of tokens;
  subscription_manager = emitted quits s.subscription_manager;
}

-- `Healthy`
unfoldable pub healthy : Service → Bool
healthy s = if s.initialized then not (length s.tokens == 0) else false

abbrev pub after_fetch :
    {W : Type 0}
    → (ℕ → Bool)
    → List String
    → Service
    → Result (List Token) × W
    → Option Error × Service × W
after_fetch quits supported s (err e, w) = (some (wrapped "failed to fetch tokens" e), s, w)
after_fetch quits supported s (ok tokens, w) = (
  none,
  record (on_tokens_updated quits (filter_tokens_by_platform supported tokens) s) {
    initialized = true;
  },
  w,
)

-- `fetchAndUpdate`, and the mark that the scheduler's task sets when there is no error.
unfoldable pub fetch_and_update :
    {W : Type 0}
    → (W → Result (List Token) × W)
    → (ℕ → Bool)
    → List String
    → Service
    → W
    → Option Error × Service × W
unfolding on_tokens_updated filter_tokens_by_platform
fetch_and_update fetch_tokens quits supported s w = after_fetch quits supported s (fetch_tokens w)
