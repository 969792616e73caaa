-- ===== src/Prices/Strip/Served.antt =====
-- What coingecko_prices/strip_utils.go leaves of each token.
use mathlib.Core.Path.{subst}
use market_proxy.Prelude.{
  String, ◌≡◌, ◌≢◌, inl, inr, refl, ap, sym, ◌∙◌, false, Option, none, some, [], ◌∷◌, ◌==◌,
  string_eq, if◌then◌else◌, Bool-cases, All,
}
use market_proxy.Prelude.Int.{ℤ}
use market_proxy.Prelude.Maps.{Map, lookup, IsGoMap}
use market_proxy.Json.{Json, Fields, null, bool, num, str, arr, obj, end, field, get_field}
use market_proxy.Prices.Data.{PriceParams}
use market_proxy.Prices.Strip.{
  should_include_field, precision_of, rounded, filter_fields, add_token, strip_token, strip_each,
  strip_response,
}

module _ {F : Type 0} where
  -- A field of a token's data.
  abbrev pub field_in : String → Option (Json F) → Option (Json F)
  field_in name none = none
  field_in name (some (obj fs)) = get_field name fs
  field_in name (some j) = none

  -- A field of a token in a response.
  abbrev pub field_of : String → String → Map String (Json F) → Option (Json F)
  field_of token_id name response = field_in name (lookup token_id response)

module _ {F : Type 0} (atoi : String → Option ℤ) (round : ℤ → F → F) (params : PriceParams) where
  -- The field as it is served.
  abbrev pub served : String → Option (Json F) → Option (Json F)
  served name none = none
  served name (some value) =
      if should_include_field name params.currencies params
      then some (rounded atoi round (precision_of atoi round params) name value)
      else none

  not_served :
      (name : String) (o : Option (Json F))
      → should_include_field name params.currencies params ≡ false
      → served name o ≡ none
  not_served name none y = refl
  not_served name (some v) y = rw y refl

  get_field-filter_fields :
      (name : String) (fs : Fields F)
      → get_field name (filter_fields atoi round params (precision_of atoi round params) fs)
        ≡ served name (get_field name fs)
  unfolding get_field filter_fields
  get_field-filter_fields name end = refl
  get_field-filter_fields name (field n v fs) =
      let ih = get_field-filter_fields name fs in
      elim (Bool-cases (n == name)) [
        | inl e ↦ elim (Bool-cases (should_include_field n params.currencies params)) [
          | inl y ↦ rw (y, e, ← (string_eq.same_iff n name).0 e, y) refl
          | inr y ↦
              rw (y, e, ih, ← (string_eq.same_iff n name).0 e)
                (not_served n (get_field n fs) y ∙ sym (not_served n (some v) y))
        ]
        | inr e ↦ elim (Bool-cases (should_include_field n params.currencies params)) [
          | inl y ↦ rw (y, e) ih
          | inr y ↦ rw (y, e) ih
        ]
      ]

  -- The data of one token stands under its id alone.
  other_token :
      (id tid : String) (fs : Fields F) (rest : Map String (Json F))
      → (tid == id) ≡ false
      → lookup id (add_token atoi round tid fs rest) ≡ lookup id rest
  unfolding lookup
  other_token id tid end rest e = refl
  other_token id tid (field n v fs) rest e = rw e refl

  other_data :
      (id tid : String) (data_ : Json F) (rest : Map String (Json F))
      → (tid == id) ≡ false
      → lookup id (strip_token atoi round params (precision_of atoi round params) tid data_ rest)
        ≡ lookup id rest
  other_data id tid (obj fs) rest e =
      other_token id tid (filter_fields atoi round params (precision_of atoi round params) fs) rest
        e
  other_data id tid null rest e = refl
  other_data id tid (bool b) rest e = refl
  other_data id tid (num x) rest e = refl
  other_data id tid (str s) rest e = refl
  other_data id tid (arr xs) rest e = refl

  strip_each_absent :
      (id : String) (m : Map String (Json F))
      → All (λ (b : String × Json F). id ≢ b.0) m
      → lookup id (strip_each atoi round params (precision_of atoi round params) m) ≡ none
  unfolding strip_each lookup
  strip_each_absent id [] h = refl
  strip_each_absent id ((tid, data_) ∷ m) h = elim (Bool-cases (tid == id)) [
    | inl e ↦ absurd (h.0 (sym ((string_eq.same_iff tid id).0 e)))
    | inr e ↦ other_data id tid data_ _ e ∙ strip_each_absent id m h.1
  ]

  this_token :
      (id name : String) (fs : Fields F) (rest : Map String (Json F))
      → lookup id rest ≡ none
      → field_in name (lookup id (add_token atoi round id fs rest)) ≡ get_field name fs
  unfolding lookup get_field
  this_token id name end rest h = ap (field_in name) h
  this_token id name (field n v fs) rest h = rw ((string_eq.same_iff id id).1 refl) refl

  this_data :
      (id name : String) (data_ : Json F) (rest : Map String (Json F))
      → lookup id rest ≡ none
      → field_in name
          (lookup id (strip_token atoi round params (precision_of atoi round params) id data_ rest))
        ≡ served name (field_in name (some data_))
  this_data id name (obj fs) rest h =
      this_token id name (filter_fields atoi round params (precision_of atoi round params) fs) rest
        h
      ∙ get_field-filter_fields name fs
  this_data id name null rest h = ap (field_in name) h
  this_data id name (bool b) rest h = ap (field_in name) h
  this_data id name (num x) rest h = ap (field_in name) h
  this_data id name (str s) rest h = ap (field_in name) h
  this_data id name (arr xs) rest h = ap (field_in name) h

  strip_each_lem :
      (id name : String) (m : Map String (Json F))
      → IsGoMap m
      → field_of id name (strip_each atoi round params (precision_of atoi round params) m)
        ≡ served name (field_of id name m)
  unfolding strip_each lookup
  strip_each_lem id name [] g = refl
  strip_each_lem id name ((tid, data_) ∷ m) g =
      let stripped = strip_each atoi round params (precision_of atoi round params) m in
      elim (Bool-cases (tid == id)) [
        | inr e ↦
            ap (field_in name) (other_data id tid data_ stripped e)
            ∙ strip_each_lem id name m g.1
            ∙ rw e refl
        | inl e ↦
            rw (e, (string_eq.same_iff tid id).0 e)
              (this_data id name data_ stripped (
                strip_each_absent id m (
                  subst (λ x. All (λ (b : String × Json F). x ≢ b.0) m)
                    ((string_eq.same_iff tid id).0 e) g.0)))
      ]

  -- Of each token in a response, the stripped response has exactly the fields that the client asked
  -- for, with the value of the response, rounded if the client gave a precision.
  pub strip_response_lem :
      (response : Map String (Json F)) (id name : String)
      → IsGoMap response
      → field_of id name (strip_response atoi round response params)
        ≡ served name (field_of id name response)
  unfolding strip_response
  strip_response_lem response id name g = strip_each_lem id name response g
