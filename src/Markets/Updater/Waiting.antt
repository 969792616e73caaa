-- ===== src/Markets/Updater/Waiting.antt =====
-- What an update in coingecko_markets/periodic_updater.go writes, and when the next one starts.
use market_proxy.Prelude.{
  ℕ, ◌≤◌, String, ◌≡◌, ◌≢◌, refl, ap, sym, ◌∙◌, inl, inr, Option, none, some, List, [], ◌∷◌,
  string_eq, arith, In, All, In-append_left, In-append_right,
}
use mathlib.Core.Path.{subst}
use market_proxy.Prelude.Int.{ℤ, pos, ◌-ℤ◌, ◌≤ℤ◌}
use market_proxy.Prelude.Maps.{Map, lookup, insert, lookup-insert}
use market_proxy.Config.Markets.{MarketTier}
use market_proxy.Markets.Updater.{
  TierDataWithTimestamp, since, ten_minutes, Action, fetch, reset_start, started, check_tier_data,
  check_and_update_tiers, set_tier_update_start_time, store_tier,
}
use market_proxy.Markets.Updater.Schedule.{
  Wanted, Stuck, check_tier_data_iff, check_and_update_tiers_iff,
}

still_due :
    (i : ℤ) (now later : ℕ) (o : Option ℕ) → now ≤ later → i ≤ℤ since now o → i ≤ℤ since later o
still_due i now later none a h = h
still_due i now later (some t) a h = ground (arith, a, h)

-- What the updates write: a mark, or its removal, at the begin, at the end and at a reset; and the
-- coins of a tier.
pub data Write (C : Type 0) : Type 0 where
  marks : String → Option ℕ → Write C
  stores : String → ℕ → List C → Write C

module _ {C : Type 0} where
  inserted :
      (name : String) (d : TierDataWithTimestamp C) (cache : Map String (TierDataWithTimestamp C))
      → lookup name (insert name d cache) ≡ some d
  inserted name d cache =
      lookup-insert name name d cache ∙ rw ((string_eq.same_iff name name).1 refl) refl

  not_stuck :
      (now later : ℕ) (t : MarketTier) (o : Option (TierDataWithTimestamp C))
      → pos later -ℤ pos now ≤ℤ ten_minutes
      → ¬ Wanted later t (some (started (some now) o))
  not_stuck now later t none h w = elim w.0 [ inl e ↦ absurd cc | inr s ↦ omega arith ]
  not_stuck now later t (some d) h w = elim w.0 [ inl e ↦ absurd cc | inr s ↦ omega arith ]

  abbrev pub tier_of_write : Write C → String
  tier_of_write (marks name start_time) = name
  tier_of_write (stores name now coins) = name

  abbrev pub written :
      Write C → Map String (TierDataWithTimestamp C) → Map String (TierDataWithTimestamp C)
  written (marks name start_time) cache = set_tier_update_start_time name start_time cache
  written (stores name now coins) cache = store_tier name now coins cache

  abbrev pub after_writes :
      List (Write C) → Map String (TierDataWithTimestamp C) → Map String (TierDataWithTimestamp C)
  after_writes [] cache = cache
  after_writes (w ∷ ws) cache = after_writes ws (written w cache)

  beside :
      (name asked : String) (d : TierDataWithTimestamp C)
      (cache : Map String (TierDataWithTimestamp C))
      → name ≢ asked
      → lookup asked (insert name d cache) ≡ lookup asked cache
  beside name asked d cache ne =
      ground (arith, lookup-insert name asked d cache, string_eq.same_iff name asked, ne)

  untouched :
      (asked : String) (ws : List (Write C)) (cache : Map String (TierDataWithTimestamp C))
      → All (λ w. tier_of_write w ≢ asked) ws
      → lookup asked (after_writes ws cache) ≡ lookup asked cache
  unfolding set_tier_update_start_time store_tier
  untouched asked [] cache h = refl
  untouched asked (marks name o ∷ ws) cache h =
      untouched asked ws (set_tier_update_start_time name o cache) h.1
      ∙ beside name asked (started o (lookup name cache)) cache h.0
  untouched asked (stores name now coins ∷ ws) cache h =
      untouched asked ws (store_tier name now coins cache) h.1
      ∙ beside name asked (record { coins = coins; timestamp = some now; update_start_time = none })
          cache h.0

  -- From the moment `now` at which an update has marked its tier, and as long as nothing is written
  -- for that tier (its own store and its end, a reset, or another update would), no check within
  -- ten minutes starts another fetch of it, whatever the interval is and whatever is written for
  -- other tiers.
  pub begun_update_excludes :
      (now later : ℕ) (tiers : List MarketTier) (cache : Map String (TierDataWithTimestamp C))
      (t : MarketTier) (ws : List (Write C))
      → All (λ w. tier_of_write w ≢ t.name) ws
      → pos later -ℤ pos now ≤ℤ ten_minutes
      → ¬ In (fetch t) (
          check_and_update_tiers later tiers
            (after_writes ws (set_tier_update_start_time t.name (some now) cache)))
  unfolding set_tier_update_start_time
  begun_update_excludes now later tiers cache t ws others h i =
      let begun = set_tier_update_start_time t.name (some now) cache in
      let found =
        untouched t.name ws begun others
        ∙ inserted t.name (started (some now) (lookup t.name cache)) cache in
      let w = ((check_and_update_tiers_iff later tiers (after_writes ws begun) t).0 i).1 in
      not_stuck now later t (lookup t.name cache) h (subst (Wanted later t) found w)

  -- What a successful update at `now` leaves of its tier.
  abbrev updated : ℕ → List C → TierDataWithTimestamp C
  updated now coins = record { coins = coins; timestamp = some now; update_start_time = none }

  stored :
      (name : String) (now : ℕ) (coins : List C) (cache : Map String (TierDataWithTimestamp C))
      → lookup name (set_tier_update_start_time name none (store_tier name now coins cache))
        ≡ some (updated now coins)
  unfolding set_tier_update_start_time store_tier
  stored name now coins cache =
      inserted name (started none (lookup name (store_tier name now coins cache)))
        (store_tier name now coins cache)
      ∙ ap (λ o. some (started none o)) (inserted name (updated now coins) cache)

  overwritten :
      (name : String) (now : ℕ) (d : TierDataWithTimestamp C)
      (cache : Map String (TierDataWithTimestamp C))
      → lookup name cache ≡ some d
      → lookup name
          (set_tier_update_start_time name none (set_tier_update_start_time name (some now) cache))
        ≡ some (record d { update_start_time = none })
  unfolding set_tier_update_start_time
  overwritten name now d cache e =
      let begun = set_tier_update_start_time name (some now) cache in
      inserted name (started none (lookup name begun)) begun
      ∙ ap (λ o. some (started none o))
          (inserted name (started (some now) (lookup name cache)) cache
            ∙ ap (λ o. some (started (some now) o)) e)

  started_by_check :
      (a : Action) (now : ℕ) (tiers : List MarketTier)
      (cache : Map String (TierDataWithTimestamp C)) (t : MarketTier)
      → In t tiers
      → In a (check_tier_data now t (lookup t.name cache))
      → In a (check_and_update_tiers now tiers cache)
  unfolding check_and_update_tiers
  started_by_check a now [] cache t i h = absurd i
  started_by_check a now (u ∷ tiers) cache t (inl e) h =
      In-append_left a (check_tier_data now u (lookup u.name cache))
        (check_and_update_tiers now tiers cache)
        (subst (λ v. In a (check_tier_data now v (lookup v.name cache))) (sym e) h)
  started_by_check a now (u ∷ tiers) cache t (inr i) h =
      In-append_right a (check_tier_data now u (lookup u.name cache))
        (check_and_update_tiers now tiers cache) (started_by_check a now tiers cache t i h)

  -- The check of a stuck tier whose interval has passed starts two goroutines, the reset of the mark
  -- and a fetch. If the reset comes after the fetch has marked the tier, it takes that mark away,
  -- and the next check starts another fetch of the tier beside the running one.
  pub late_reset_reopens :
      (checked begun later : ℕ) (tiers : List MarketTier)
      (cache : Map String (TierDataWithTimestamp C)) (t : MarketTier) (d : TierDataWithTimestamp C)
      → In t tiers
      → lookup t.name cache ≡ some d
      → Stuck checked t d.update_start_time
      → t.update_interval ≤ℤ since checked d.timestamp
      → checked ≤ later
      → In (fetch t) (check_and_update_tiers checked tiers cache)
        × In (reset_start t.name) (check_and_update_tiers checked tiers cache)
        × In (fetch t) (
            check_and_update_tiers later tiers (
              set_tier_update_start_time t.name none
                (set_tier_update_start_time t.name (some begun) cache)))
  late_reset_reopens checked begun later tiers cache t d i e stuck h a =
      let cache' =
        set_tier_update_start_time t.name none
          (set_tier_update_start_time t.name (some begun) cache) in
      let (f, r) = check_tier_data_iff checked t (lookup t.name cache) in
      (
        started_by_check (fetch t) checked tiers cache t i (f.1 (rw e (inr stuck, h))),
        started_by_check (reset_start t.name) checked tiers cache t i (r.1 (rw e stuck)),
        (check_and_update_tiers_iff later tiers cache' t).1 (
          i,
          subst (Wanted later t) (sym (overwritten t.name begun d cache e))
              (inl refl, still_due t.update_interval checked later d.timestamp a h),
        ),
      )
