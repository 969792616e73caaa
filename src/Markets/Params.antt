-- ===== src/Markets/Params.antt =====
-- interfaces/coingecko_markets.go and coingecko_markets/market_params_override.go: what is asked of
-- the markets service, and the overrides of the configuration.
use Prim.Native.Char.{code}
use market_proxy.Prelude.{
  String, ◌≡◌, refl, Bool, Option, none, some, List, [], ◌∷◌, ◌==◌, nat_eq, if◌then◌else◌,
}
use market_proxy.Prelude.Int.{ℤ}
use market_proxy.Config.Markets.{MarketParamsNormalize}

pub record MarketsParams : Type 0 where
  pub currency : String
  pub order : String
  pub page : ℤ
  pub per_page : ℤ
  pub category : String
  pub ids : List String
  pub sparkline_enabled : Bool
  pub price_change_percentage : List String

-- `strings.Split(s, ",")`
unfoldable pub split_commas : String → List String
split_commas String.[] = "" ∷ []
split_commas (String.◌∷◌ c s) = elim (split_commas s) [
  | [] ↦ []
  | part ∷ parts ↦ if code c == 44 then "" ∷ part ∷ parts else String.◌∷◌ c part ∷ parts
]

-- `if override != nil { field = *override }`
abbrev pub override : {A : Type 0} → Option A → A → A
override none value = value
override (some v) value = v

abbrev split_option : Option String → Option (List String)
split_option none = none
split_option (some s) = some (split_commas s)

abbrev pub overridden : MarketParamsNormalize → MarketsParams → MarketsParams
overridden n params = record params {
  currency = override n.vs_currency params.currency;
  order = override n.order params.order;
  per_page = override n.per_page params.per_page;
  sparkline_enabled = override n.sparkline params.sparkline_enabled;
  price_change_percentage =
      override (split_option n.price_change_percentage) params.price_change_percentage;
  category = override n.category params.category;
}

-- `ApplyParamsOverride`
unfoldable pub apply_params_override : Option MarketParamsNormalize → MarketsParams → MarketsParams
apply_params_override none params = params
apply_params_override (some n) params = overridden n params

override_twice : {A : Type 0} (o : Option A) (v : A) → override o (override o v) ≡ override o v
override_twice none v = refl
override_twice (some x) v = refl

-- Parameters that have been normalized are not changed by normalizing them again, and the page and
-- the ids never change.
pub apply_params_override_twice :
    (n : Option MarketParamsNormalize) (params : MarketsParams)
    → (apply_params_override n (apply_params_override n params) ≡ apply_params_override n params)
      × ((apply_params_override n params).page ≡ params.page)
      × ((apply_params_override n params).ids ≡ params.ids)
unfolding apply_params_override
apply_params_override_twice none params = (refl, refl, refl)
apply_params_override_twice (some n) params = (
  (λ i. record params {
    currency = override_twice n.vs_currency params.currency i;
    order = override_twice n.order params.order i;
    per_page = override_twice n.per_page params.per_page i;
    sparkline_enabled = override_twice n.sparkline params.sparkline_enabled i;
    price_change_percentage =
        override_twice (split_option n.price_change_percentage) params.price_change_percentage i;
    category = override_twice n.category params.category i;
  }),
  refl,
  refl,
)
