-- ===== src/Markets/Updater/Schedule.antt =====
-- When the check of coingecko_markets/periodic_updater.go starts an update of a tier.
use mathlib.Core.Path.{subst}
use market_proxy.Prelude.{
  ℕ, string_eq, ◌≤◌, String, ◌≡◌, ◌≢◌, refl, sym, ◌↔◌, ◌⊎◌, inl, inr, Bool, true, false, Option,
  none, some, List, [], ◌∷◌, not, ◌&&◌, if◌then◌else◌, arith, In, In-append_left, In-append_right,
  In-append_cases, Bool-cases,
}
use market_proxy.Prelude.Int.{ℤ, pos, negsuc, ◌-ℤ◌, ◌*ℤ◌, ◌≤ℤ◌, ◌<ℤ◌, leb_ℤ, ltb_ℤ}
use market_proxy.Prelude.Maps.{Map, lookup}
use market_proxy.Config.Markets.{MarketTier}
use market_proxy.Markets.Updater.{
  TierDataWithTimestamp, since, ten_minutes, max_duration, max_update_duration, is_set, is_stuck,
  is_due, Action, reset_start, fetch, check_tier_data, check_and_update_tiers,
}

-- An update of the tier has been running for too long: longer than ten minutes and than three
-- intervals.
abbrev pub Stuck : ℕ → MarketTier → Option ℕ → Type 0
Stuck now tier none = ⊥
Stuck now tier (some t) =
    (ten_minutes <ℤ pos now -ℤ pos t) × (tier.update_interval *ℤ pos 3 <ℤ pos now -ℤ pos t)

above_both : (a b d : ℤ) → (ltb_ℤ (if ltb_ℤ a b then b else a) d ≡ true) ↔ ((a <ℤ d) × (b <ℤ d))
above_both a b d = elim (Bool-cases (ltb_ℤ a b)) [
  | inl e ↦ rw e (ground arith)
  | inr e ↦ rw e (ground arith)
]

leb_ℤ_iff : (a b : ℤ) → (leb_ℤ a b ≡ true) ↔ (a ≤ℤ b)
leb_ℤ_iff a b = ground arith

is_stuck_iff :
    (now : ℕ) (tier : MarketTier) (o : Option ℕ) → (is_stuck now tier o ≡ true) ↔ Stuck now tier o
unfolding is_stuck max_update_duration
is_stuck_iff now tier none = ((λ h. absurd cc), (λ h. absurd h))
is_stuck_iff now tier (some t) =
    above_both ten_minutes (tier.update_interval *ℤ pos 3) (pos now -ℤ pos t)

due_iff :
    (now : ℕ) (tier : MarketTier) (o : Option ℕ) (elapsed : ℤ)
    → ((not (is_set o && not (is_stuck now tier o)) && leb_ℤ tier.update_interval elapsed) ≡ true)
      ↔ (((o ≡ none) ⊎ Stuck now tier o) × (tier.update_interval ≤ℤ elapsed))
due_iff now tier none elapsed =
    let l = leb_ℤ_iff tier.update_interval elapsed in ((λ h. (inl refl, l.0 h)), (λ h. l.1 h.1))
due_iff now tier (some t) elapsed =
    let l = leb_ℤ_iff tier.update_interval elapsed in
    let i = is_stuck_iff now tier (some t) in
    elim (Bool-cases (is_stuck now tier (some t))) [
      | inl e ↦ rw e ((λ h. (inr (i.0 e), l.0 h)), (λ h. l.1 h.1))
      | inr e ↦ rw e (
        (λ h. absurd cc),
        (λ h. elim h.0 [ inl p ↦ absurd cc | inr q ↦ absurd (let f = i.1 q in cc) ]),
      )
    ]

fetch_not_reset : (t : MarketTier) (n : String) → fetch t ≢ reset_start n
fetch_not_reset t n e = absurd cc

abbrev actions : MarketTier → String → Bool → Bool → List Action
actions t n stuck due =
    let fetches = if due then fetch t ∷ [] else [] in
    if stuck then reset_start n ∷ fetches else fetches

actions_iff :
    (t : MarketTier) (n : String) (stuck due : Bool)
    → (In (fetch t) (actions t n stuck due) ↔ (due ≡ true))
      × (In (reset_start n) (actions t n stuck due) ↔ (stuck ≡ true))
actions_iff t n true true = (((λ h. refl), (λ h. inr (inl refl))), ((λ h. refl), (λ h. inl refl)))
actions_iff t n true false = (
  (
    (λ h. elim h [ inl e ↦ absurd (fetch_not_reset t n (sym e)) | inr b ↦ absurd b ]),
    (λ h. absurd cc),
  ),
  ((λ h. refl), (λ h. inl refl)),
)
actions_iff t n false true = (
  ((λ h. refl), (λ h. inl refl)),
  ((λ h. elim h [ inl e ↦ absurd (fetch_not_reset t n e) | inr b ↦ absurd b ]), (λ h. absurd cc)),
)
actions_iff t n false false =
    (((λ h. absurd h), (λ h. absurd cc)), ((λ h. absurd h), (λ h. absurd cc)))

own_actions :
    (t u : MarketTier) (n : String) (stuck due : Bool)
    → In (fetch t) (actions u n stuck due)
    → u ≡ t
own_actions t u n true true (inl e) = absurd (fetch_not_reset t n (sym e))
own_actions t u n true true (inr (inl e)) = cc
own_actions t u n true true (inr (inr h)) = absurd h
own_actions t u n true false (inl e) = absurd (fetch_not_reset t n (sym e))
own_actions t u n true false (inr h) = absurd h
own_actions t u n false true (inl e) = cc
own_actions t u n false true (inr h) = absurd h
own_actions t u n false false h = absurd h

-- The last success was before `start`, if there was one.
abbrev pub SucceededBefore : ℕ → Option ℕ → Type 0
SucceededBefore start none = Unit
SucceededBefore start (some t) = t ≤ start

interval_passed :
    (i : ℤ) (now start s : ℕ)
    → s ≤ start
    → pos 0 <ℤ i
    → i *ℤ pos 3 <ℤ pos now -ℤ pos start
    → i ≤ℤ pos now -ℤ pos s
interval_passed (pos n) now start s b p three = ground arith
interval_passed (negsuc n) now start s b p three = absurd (ground arith)

module _ {C : Type 0} where
  -- When a tier is due: no update runs, or it is stuck; and the interval has passed.
  abbrev pub Due : ℕ → MarketTier → TierDataWithTimestamp C → Type 0
  Due now tier d =
      ((d.update_start_time ≡ none) ⊎ Stuck now tier d.update_start_time)
      × (tier.update_interval ≤ℤ since now d.timestamp)

  is_due_iff :
      (now : ℕ) (tier : MarketTier) (d : TierDataWithTimestamp C)
      → (is_due now tier d ≡ true) ↔ Due now tier d
  unfolding is_due
  is_due_iff now tier d = due_iff now tier d.update_start_time (since now d.timestamp)

  -- What the check finds for the tier: nothing yet, or data that is due.
  abbrev pub Wanted : ℕ → MarketTier → Option (TierDataWithTimestamp C) → Type 0
  Wanted now tier none = Unit
  Wanted now tier (some d) = Due now tier d

  abbrev pub HasStuck : ℕ → MarketTier → Option (TierDataWithTimestamp C) → Type 0
  HasStuck now tier none = ⊥
  HasStuck now tier (some d) = Stuck now tier d.update_start_time

  -- The check of one tier starts a fetch of this tier exactly if there is no data yet, or the interval
  -- has passed since the last success and no update is running, or one that is stuck; and it
  -- resets the start of an update exactly if that is stuck.
  pub check_tier_data_iff :
      (now : ℕ) (tier : MarketTier) (o : Option (TierDataWithTimestamp C))
      → (In (fetch tier) (check_tier_data now tier o) ↔ Wanted now tier o)
        × (In (reset_start tier.name) (check_tier_data now tier o) ↔ HasStuck now tier o)
  unfolding check_tier_data
  check_tier_data_iff now tier none = (
    ((λ h. tt), (λ h. inl refl)),
    (
      (λ h. elim h [ inl e ↦ absurd (fetch_not_reset tier tier.name e) | inr b ↦ b ]),
      (λ h. absurd h),
    ),
  )
  check_tier_data_iff now tier (some d) =
      let (f, r) =
        actions_iff tier tier.name (is_stuck now tier d.update_start_time) (is_due now tier d) in
      let due = is_due_iff now tier d in
      let stuck = is_stuck_iff now tier d.update_start_time in
      (
        ((λ h. due.0 (f.0 h)), (λ h. f.1 (due.1 h))),
        ((λ h. stuck.0 (r.0 h)), (λ h. r.1 (stuck.1 h))),
      )

  own_fetch :
      (now : ℕ) (t u : MarketTier) (o : Option (TierDataWithTimestamp C))
      → In (fetch t) (check_tier_data now u o)
      → u ≡ t
  unfolding check_tier_data
  own_fetch now t u none (inl e) = cc
  own_fetch now t u none (inr h) = absurd h
  own_fetch now t u (some d) h =
      own_actions t u u.name (is_stuck now u d.update_start_time) (is_due now u d) h

  -- The check of all tiers starts a fetch of exactly the tiers of the configuration that are wanted:
  -- those without data, and those whose interval has passed since the last success and of which
  -- no update is running, or one that is stuck.
  pub check_and_update_tiers_iff :
      (now : ℕ) (tiers : List MarketTier) (cache : Map String (TierDataWithTimestamp C))
      (t : MarketTier)
      → In (fetch t) (check_and_update_tiers now tiers cache)
        ↔ (In t tiers × Wanted now t (lookup t.name cache))
  unfolding check_and_update_tiers
  check_and_update_tiers_iff now [] cache t = ((λ h. absurd h), (λ h. absurd h.0))
  check_and_update_tiers_iff now (u ∷ tiers) cache t =
      let ih = check_and_update_tiers_iff now tiers cache t in
      let mine = check_tier_data now u (lookup u.name cache) in
      let others = check_and_update_tiers now tiers cache in
      let own = check_tier_data_iff now t (lookup t.name cache) in
      (
        (λ h. elim (In-append_cases (fetch t) mine others h) [
          | inl x ↦
              (let e = own_fetch now t u (lookup u.name cache) x in
                (
                  inl e,
                  own.0.0
                      (subst (λ v. In (fetch t) (check_tier_data now v (lookup v.name cache))) e x),
                ))
          | inr y ↦ (let r = ih.0 y in (inr r.0, r.1))
        ]),
        (λ h. elim h.0 [
          | inl e ↦ In-append_left (fetch t) mine others (
              subst (λ v. In (fetch t) (check_tier_data now v (lookup v.name cache))) (sym e)
                (own.0.1 h.1))
          | inr i ↦ In-append_right (fetch t) mine others (ih.1 (i, h.1))
        ]),
      )

  -- No update blocks its tier for ever: if an update has been running for more than ten minutes
  -- and three intervals, then the check starts another.
  stuck_update_restarts :
      (now start : ℕ) (tiers : List MarketTier) (cache : Map String (TierDataWithTimestamp C))
      (t : MarketTier) (d : TierDataWithTimestamp C)
      → In t tiers
      → lookup t.name cache ≡ some d
      → d.update_start_time ≡ some start
      → SucceededBefore start d.timestamp
      → pos 0 <ℤ t.update_interval
      → t.update_interval ≤ℤ max_duration
      → ten_minutes <ℤ pos now -ℤ pos start
      → t.update_interval *ℤ pos 3 <ℤ pos now -ℤ pos start
      → In (fetch t) (check_and_update_tiers now tiers cache)
  stuck_update_restarts now start tiers cache t d i found running before p m ten three =
      (check_and_update_tiers_iff now tiers cache t).1
        (i, rw found ((inr (rw running (ten, three)), passed d.timestamp before)))
    where
      passed : (o : Option ℕ) → SucceededBefore start o → t.update_interval ≤ℤ since now o
      passed none b = m
      passed (some s) b = interval_passed t.update_interval now start s b p three
