-- ===== src/Markets/Data.antt =====
-- What the parts of coingecko_markets share: pages, cache keys and the ids in the fetched data.
-- A `[]byte` is a string; `unmarshal` is `json.Unmarshal` into an `interface{}`.
use market_proxy.Prelude.{String, Option, none, some, List, [], ◌∷◌, ◌==◌, string_eq, if◌then◌else◌}
use market_proxy.Prelude.Int.{ℤ}
use market_proxy.Json.{Json, get_field, as_map, as_string}

pub record PageData : Type 0 where
  pub page : ℤ
  pub items : List String

-- `ID_FIELD`
abbrev pub id_field : String
id_field = "id"

abbrev non_empty : String → Option String
non_empty s = if s == "" then none else some s

abbrev and_then : {A B : Type 0} → Option A → (A → Option B) → Option B
and_then none f = none
and_then (some a) f = f a

-- The chain of assertions that finds the id of a token.
unfoldable pub token_id : {F : Type 0} → Json F → Option String
token_id j =
    and_then (as_map j)
      λ fs. and_then (get_field id_field fs) λ id. and_then (as_string id) λ s. non_empty s

module _ {F : Type 0} (unmarshal : String → Option (Json F)) where
  abbrev pub id_of_bytes : String → Option String
  id_of_bytes bytes = and_then (unmarshal bytes) token_id

  -- `extractTokenIDsFromPageData`
  unfoldable pub extract_token_ids : List String → List String
  extract_token_ids [] = []
  extract_token_ids (b ∷ bs) =
      let rest = extract_token_ids bs in elim (id_of_bytes b) [ none ↦ rest | some id ↦ id ∷ rest ]
