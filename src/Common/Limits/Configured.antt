-- ===== src/Common/Limits/Configured.antt =====
-- coingecko_common/rate_limiter_manager.go: every limiter has the limit and the burst of the
-- configuration, and a key keeps its limiter.
use market_proxy.Prelude.{
  ℕ, ◌+◌, String, ◌≡◌, refl, ap, sym, ◌∙◌, inl, inr, false, some, [], ◌∷◌, ◌==◌, string_eq,
  if◌then◌else◌, Bool-cases, Option-cases, All,
}
use market_proxy.Prelude.Int.{ℤ, int_eq, leb_ℤ, ltb_ℤ, pos, pos_part}
use market_proxy.Prelude.Maps.{Map, lookup, lookup-insert}
use market_proxy.Common.Keys.{KeyType}
use market_proxy.Common.Limits.{
  ApiKeyConfig, Limiter, RateLimiterManager, limiter_map_key, parse_key_type, settings, default_rpm,
  limit_for_type, default_burst_for_limit, burst_for_type, new_limiter, get_limiter_for_key,
  changed, rebuild_limiters, set_config,
}
use market_proxy.Common.Limits.MapKeys.{parse_key_type-limiter_map_key}

-- The limiter is what the configuration says of the type.
abbrev pub IsMadeFor : ApiKeyConfig → KeyType → Limiter → Type 0
IsMadeFor config t l =
    (l.per_minute ≡ limit_for_type config t)
    × (l.burst ≡ burst_for_type config t (limit_for_type config t))

abbrev pub AllMadeFor : ApiKeyConfig → Map String Limiter → Type 0
AllMadeFor config m = All (λ (e : String × Limiter). IsMadeFor config (parse_key_type e.0) e.1) m

abbrev pub IsConfigured : RateLimiterManager → Type 0
IsConfigured m = AllMadeFor m.config m.key_to_limiter

-- The same, from the two numbers of the settings.
abbrev limit_of : KeyType → ℤ → ℕ
limit_of t rpm = if leb_ℤ rpm (pos 0) then default_rpm t else pos_part rpm

abbrev IsMadeOf : KeyType → Limiter → ℤ → ℤ → Type 0
IsMadeOf t l rpm burst =
    (l.per_minute ≡ limit_of t rpm)
    × (l.burst ≡ (
        if ltb_ℤ (pos 0) burst then pos_part burst else default_burst_for_limit (limit_of t rpm)))

-- Behind a call, the map holds what the call returned.
get_limiter-lookup :
    (key : String) (t : KeyType) (m : RateLimiterManager)
    → lookup (limiter_map_key key t) (get_limiter_for_key key t m).1.key_to_limiter
      ≡ some (get_limiter_for_key key t m).0
unfolding get_limiter_for_key
get_limiter-lookup key t m = elim (Option-cases (lookup (limiter_map_key key t) m.key_to_limiter)) [
  | inl e ↦ rw e (
      lookup-insert (limiter_map_key key t) (limiter_map_key key t) (new_limiter m.made m.config t)
        m.key_to_limiter
      ∙ rw ((string_eq.same_iff (limiter_map_key key t) (limiter_map_key key t)).1 refl) refl)
  | inr (l, e) ↦ rw e e
]

-- A call for any key leaves the limiters that are there.
get_limiter-keeps :
    (key : String) (t : KeyType) (m : RateLimiterManager) (k : String) (l : Limiter)
    → lookup k m.key_to_limiter ≡ some l
    → lookup k (get_limiter_for_key key t m).1.key_to_limiter ≡ some l
unfolding get_limiter_for_key
get_limiter-keeps key t m k l h =
    elim (Option-cases (lookup (limiter_map_key key t) m.key_to_limiter)) [
      | inr (l', e) ↦ rw e h
      | inl e ↦ rw e (
          lookup-insert (limiter_map_key key t) k (new_limiter m.made m.config t) m.key_to_limiter
          ∙ elim (Bool-cases (limiter_map_key key t == k)) [
            | inl q ↦ (let q' = (string_eq.same_iff (limiter_map_key key t) k).0 q in absurd cc)
            | inr q ↦ rw q h
          ])
    ]

get_limiter-config :
    (key : String) (t : KeyType) (m : RateLimiterManager)
    → (get_limiter_for_key key t m).1.config ≡ m.config
unfolding get_limiter_for_key
get_limiter-config key t m = elim (Option-cases (lookup (limiter_map_key key t) m.key_to_limiter)) [
  | inl e ↦ rw e refl
  | inr (l, e) ↦ rw e refl
]

-- A configuration leaves the limiters of the types that it does not change.
set_config-keeps :
    (old new : ApiKeyConfig) (made : ℕ) (m : Map String Limiter) (k : String) (l : Limiter)
    → changed old new (parse_key_type k) ≡ false
    → lookup k m ≡ some l
    → lookup k (rebuild_limiters old new made m).0 ≡ some l
unfolding rebuild_limiters lookup
set_config-keeps old new made [] k l e h = absurd cc
set_config-keeps old new made ((i, l') ∷ m) k l e h =
    let again = changed old new (parse_key_type i) in
    let ih = set_config-keeps old new (if again then made + 1 else made) m k l e in
    elim (Bool-cases (i == k)) [
      | inr q ↦ rw q (ih (sym (rw q refl) ∙ h))
      | inl q ↦ rw q (
          let same = (string_eq.same_iff i k).0 q in
          let kept = ap (λ x. changed old new (parse_key_type x)) same ∙ e in
          ap (λ b. some (if b then new_limiter made new (parse_key_type i) else l')) kept
          ∙ sym (rw q refl)
          ∙ h)
    ]

found :
    (key : String) (t : KeyType) (m : RateLimiterManager) (l : Limiter)
    → lookup (limiter_map_key key t) m.key_to_limiter ≡ some l
    → (get_limiter_for_key key t m).0 ≡ l
unfolding get_limiter_for_key
found key t m l e = rw e refl

unchanged :
    (old new : ApiKeyConfig) (t : KeyType)
    → settings old t ≡ settings new t
    → changed old new t ≡ false
unfolding changed
unchanged old new t e =
    let s = settings new t in
    rw
      (
        e,
        (int_eq.same_iff s.rate_limit_per_minute s.rate_limit_per_minute).1 refl,
        (int_eq.same_iff s.burst s.burst).1 refl,
      )
      refl

-- A key keeps its limiter: whatever key is asked for in between, and whatever configuration is set
-- that has the same limit and burst for its type, the next call for it returns the very limiter of the first.
pub limiter_kept :
    (m : RateLimiterManager) (key other : String) (t other_t : KeyType) (new_cfg : ApiKeyConfig)
    → settings m.config t ≡ settings new_cfg t
    → (get_limiter_for_key key t (
        set_config new_cfg (get_limiter_for_key other other_t (get_limiter_for_key key t m).1).1)).0
      ≡ (get_limiter_for_key key t m).0
unfolding set_config
limiter_kept m key other t other_t new_cfg same =
    let h = unchanged m.config new_cfg t same in
    let k = limiter_map_key key t in
    let first = get_limiter_for_key key t m in
    let second = (get_limiter_for_key other other_t first.1).1 in
    let there = get_limiter-keeps other other_t first.1 k first.0 (get_limiter-lookup key t m) in
    let kept =
      set_config-keeps second.config new_cfg second.made second.key_to_limiter k first.0
        (ap (changed second.config new_cfg) (parse_key_type-limiter_map_key key t)
          ∙ ap (λ c. changed c new_cfg t)
              (get_limiter-config other other_t first.1 ∙ get_limiter-config key t m)
          ∙ h)
        there in
    found key t (set_config new_cfg second) first.0 kept
