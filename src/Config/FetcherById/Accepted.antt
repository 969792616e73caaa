-- ===== src/Config/FetcherById/Accepted.antt =====
-- Which configurations `Validate` of config/fetcher_by_id_config.go accepts, and what holds of them.
use market_proxy.Prelude.{
  String, ◌≡◌, ◌≢◌, refl, ◌↔◌, ◌⊎◌, inl, inr, Bool, true, false, ◌&&◌, not, Option, none, some,
  List, [], ◌∷◌, map, ◌==◌, string_eq, if◌then◌else◌, All, Pairs, Bool-cases, different,
}
use market_proxy.Prelude.Text.{contains}
use market_proxy.Prelude.Errors.{Error, msg}
use market_proxy.Config.Tiers.{validate_tiers, wrap_error}
use market_proxy.Config.Tiers.Valid.{IsSound, IsApart, validate_tiers_iff}
use market_proxy.Config.FetcherById.{
  GenericTier, FetcherByIdConfig, placeholder_id, placeholder_ids_list, has_tiers, generic_tier,
  validate_fetcher,
}

-- Exactly one of the two.
abbrev pub OneOf : Bool → Bool → Type 0
OneOf a b = ((a ≡ true) × (b ≡ false)) ⊎ ((a ≡ false) × (b ≡ true))

abbrev checks : Bool → Bool → Bool → Bool → Bool → Option Error → Option Error
checks unnamed pathless single batch tiers rest =
    if unnamed
    then some (msg "name is required")
    else if pathless
    then some (msg "endpoint_path is required")
    else if not single && not batch
    then some (msg "endpoint_path must contain a placeholder")
    else if single && batch
    then some (msg "endpoint_path cannot contain both placeholders")
    else if not tiers
    then some (msg "tiers configuration is required")
    else wrap_error "tier configuration validation failed" rest

checks_iff :
    (unnamed pathless single batch tiers : Bool) (rest : Option Error)
    → (checks unnamed pathless single batch tiers rest ≡ none) ↔ (
        (unnamed ≡ false)
        × (pathless ≡ false)
        × OneOf single batch
        × (tiers ≡ true)
        × (rest ≡ none))
checks_iff true p s b t r = ((λ h. absurd cc), (λ h. absurd cc))
checks_iff false true s b t r = ((λ h. absurd cc), (λ h. absurd cc))
checks_iff false false true true t r =
    ((λ h. absurd cc), (λ h. absurd (elim h.2 [ inl x ↦ cc | inr x ↦ cc ])))
checks_iff false false false false t r =
    ((λ h. absurd cc), (λ h. absurd (elim h.2 [ inl x ↦ cc | inr x ↦ cc ])))
checks_iff false false true false false r = ((λ h. absurd cc), (λ h. absurd cc))
checks_iff false false false true false r = ((λ h. absurd cc), (λ h. absurd cc))
checks_iff false false true false true none =
    ((λ h. (refl, refl, inl (refl, refl), refl, refl)), (λ h. refl))
checks_iff false false true false true (some e) = ((λ h. absurd cc), (λ h. absurd cc))
checks_iff false false false true true none =
    ((λ h. (refl, refl, inr (refl, refl), refl, refl)), (λ h. refl))
checks_iff false false false true true (some e) = ((λ h. absurd cc), (λ h. absurd cc))

not_empty : (s : String) → s ≢ "" → (s == "") ≡ false
not_empty s n = elim (Bool-cases (s == "")) [
  | inl e ↦ absurd (n ((string_eq.same_iff s "").0 e))
  | inr e ↦ e
]

tiers_there :
    (ts : List GenericTier)
    → map generic_tier ts ≢ []
    → (elim ts [ [] ↦ false | t ∷ us ↦ true ]) ≡ true
tiers_there [] n = absurd (n refl)
tiers_there (t ∷ ts) n = refl

-- A configuration is accepted exactly if it has a name and a path with exactly one of the two
-- placeholders, and its tiers are there, sound and apart from each other.
pub validate_fetcher_iff :
    (c : FetcherByIdConfig)
    → (validate_fetcher c ≡ none) ↔ (
        (c.name ≢ "")
        × (c.endpoint_path ≢ "")
        × OneOf
            (contains c.endpoint_path placeholder_id)
            (contains c.endpoint_path placeholder_ids_list)
        × (map generic_tier c.tiers ≢ [])
        × All IsSound (map generic_tier c.tiers)
        × Pairs IsApart (map generic_tier c.tiers))
unfolding validate_fetcher has_tiers
validate_fetcher_iff c =
    let ts = map generic_tier c.tiers in
    let k =
      checks_iff (c.name == "") (c.endpoint_path == "") (contains c.endpoint_path placeholder_id)
        (contains c.endpoint_path placeholder_ids_list) (has_tiers c) (validate_tiers ts) in
    let v = validate_tiers_iff ts in
    (
      (λ h.
          let (n, p, o, t, valid) = k.0 h in
          let (some_tiers, sound, apart) = v.0 valid in
          (different c.name "" n, different c.endpoint_path "" p, o, some_tiers, sound, apart)),
      (λ h.
          let (n, p, o, some_tiers, sound, apart) = h in
          k.1 (
            not_empty c.name n,
            not_empty c.endpoint_path p,
            o,
            tiers_there c.tiers some_tiers,
            v.1 (some_tiers, sound, apart),
          )),
    )
