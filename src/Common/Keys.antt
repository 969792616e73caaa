-- ===== src/Common/Keys.antt =====
-- coingecko_common/api_key_manager.go and utils.go: API keys, their backoff after a failure, and
-- the loop that tries them in turn.
--
-- A time is a number of nanoseconds on the monotonic clock. The readings of the clock within one
-- call are one reading, `now`. The random generator of the manager is used by nothing.
pub mod Backoff
pub mod Trying
use market_proxy.Prelude.{
  ℕ, ◌-◌, String, Bool, true, false, Option, none, some, List, [], ◌∷◌, ◌++◌, ltb, ◌==◌, string_eq,
  if◌then◌else◌,
}
use market_proxy.Prelude.Maps.{Map, lookup, insert}
use market_proxy.Prelude.Errors.{Error, exhausted, Result, ok, err}

pub data KeyType : Type 0 where
  no_key pro_key demo_key : KeyType

-- `APIKey`; the field `Type` of the source is `key_type`.
pub record ApiKey : Type 0 where
  pub key : String
  pub key_type : KeyType

-- `config.APITokens`
pub record ApiTokens : Type 0 where
  pub tokens : List String
  pub demo_tokens : List String

pub record ApiKeyManager : Type 0 where
  pub api_tokens : Option ApiTokens
  pub last_failed : Map String ℕ
  pub backoff_time : ℕ

-- Five minutes.
abbrev pub backoff_default : ℕ
backoff_default = 300_000_000_000

unfoldable pub new_api_key_manager : Option ApiTokens → ApiKeyManager
new_api_key_manager api_tokens = record {
  api_tokens = api_tokens;
  last_failed = [];
  backoff_time = backoff_default;
}

unfoldable pub is_key_in_backoff : ApiKeyManager → ℕ → String → Bool
is_key_in_backoff m now key = if key == "" then false else elim (lookup key m.last_failed) [
  | some last_fail_time ↦ ltb (now - last_fail_time) m.backoff_time
  | none ↦ false
]

keys_of_type : Option ApiTokens → KeyType → List String
keys_of_type none t = []
keys_of_type (some a) pro_key = a.tokens
keys_of_type (some a) demo_key = a.demo_tokens
keys_of_type (some a) no_key = []

unfoldable pub get_keys_of_type : ApiKeyManager → KeyType → List String
unfolding keys_of_type
get_keys_of_type m t = keys_of_type m.api_tokens t

-- The keys of one type that are not in backoff.
unfoldable pub rested_keys : ApiKeyManager → ℕ → KeyType → List String → List ApiKey
rested_keys m now t [] = []
rested_keys m now t (k ∷ ks) =
    let rest = rested_keys m now t ks in
    if is_key_in_backoff m now k then rest else record { key = k; key_type = t } ∷ rest

-- A single Pro key is kept, also in backoff.
unfoldable pub available_pro_keys : ApiKeyManager → ℕ → List String → List ApiKey
available_pro_keys m now [] = []
available_pro_keys m now (k ∷ []) = record { key = k; key_type = pro_key } ∷ []
available_pro_keys m now (k ∷ l ∷ ks) = rested_keys m now pro_key (k ∷ l ∷ ks)

abbrev pub the_no_key : ApiKey
the_no_key = record { key = ""; key_type = no_key }

unfoldable pub get_available_keys : ApiKeyManager → ℕ → List ApiKey
get_available_keys m now =
    available_pro_keys m now (get_keys_of_type m pro_key)
    ++ (rested_keys m now demo_key (get_keys_of_type m demo_key) ++ the_no_key ∷ [])

unfoldable pub mark_key_as_failed : ApiKeyManager → ℕ → String → ApiKeyManager
mark_key_as_failed m now key =
    if key == "" then m else record m { last_failed = insert key now m.last_failed }

-- `CreateFailCallback`; the callback mutates the manager.
unfoldable pub create_fail_callback : ℕ → ApiKeyManager → ApiKey → ApiKeyManager
create_fail_callback now m api_key =
    if api_key.key == "" then m else mark_key_as_failed m now api_key.key

-- What a `RequestExecutor` returns: `(interface{}, bool, error)`.
pub record Attempt (A : Type 0) : Type 0 where
  pub result : Option A
  pub success : Bool
  pub error : Option Error

module _ {A S : Type 0} (executor : S → ApiKey → Attempt A × S)
    (on_failed : Option (S → ApiKey → S)) where
  abbrev pub after_failure : Option Error → ApiKey → S → S
  after_failure none api_key s = s
  after_failure (some e) api_key s = elim on_failed [ none ↦ s | some f ↦ f s api_key ]

  -- `TryWithKeys`. The text of the last error goes into the message alone.
  unfoldable pub try_with_keys : List ApiKey → S → Result (Option A) × S
  try_with_keys [] s = (err (exhausted "all API keys failed"), s)
  try_with_keys (k ∷ ks) s =
      let (a, s') = executor s k in
      let go_on = try_with_keys ks (after_failure a.error k s') in
      if a.success then (ok a.result, s') else go_on

-- The two overrides of `config.Config`.
pub record BaseUrls : Type 0 where
  pub override_public : String
  pub override_pro : String

abbrev pub coingecko_public_url : String
coingecko_public_url = "https://api.coingecko.com"

abbrev pub coingecko_pro_url : String
coingecko_pro_url = "https://pro-api.coingecko.com"

abbrev override_or : String → String → String
override_or override default = if override == "" then default else override

unfoldable pub get_api_base_url : BaseUrls → KeyType → String
get_api_base_url cfg pro_key = override_or cfg.override_pro coingecko_pro_url
get_api_base_url cfg _ = override_or cfg.override_public coingecko_public_url
