-- ===== src/Markets/Updater/FirstLoad.antt =====
-- The end of the first load in coingecko_markets/periodic_updater.go: the callback is started once.
use mathlib.Core.Path.{subst}
use market_proxy.Prelude.{
  ℕ, suc, ◌+◌, String, ◌≡◌, ◌≢◌, refl, ap, ◌↔◌, ◌⊎◌, inl, inr, Bool, true, false, ◌&&◌, not, List,
  [], ◌∷◌, ◌==◌, nat_eq, string_eq, if◌then◌else◌, arith, In, In-append_left, In-append_right,
  In-append_cases, All-map_with, Bool-cases, length,
}
use market_proxy.Prelude.Sets.{
  is_in, is_in_iff, IsDistinct, IsWithin, length-IsWithin, All-of_each, All-each,
  IsDistinct-append_one,
}
use market_proxy.Config.Markets.{MarketTier}
use market_proxy.Markets.Updater.{
  InitialLoad, add_completed, all_in, check_and_trigger_initial_load_completed,
}

abbrev pub names : List MarketTier → List String
names [] = []
names (t ∷ ts) = t.name ∷ names ts

length-names : (ts : List MarketTier) → length (names ts) ≡ length ts
length-names [] = refl
length-names (t ∷ ts) = ap suc (length-names ts)

all_in_iff :
    (ts : List MarketTier) (done : List String) → (all_in ts done ≡ true) ↔ IsWithin (names ts) done
all_in_iff [] done = ((λ h. tt), (λ h. refl))
all_in_iff (t ∷ ts) done =
    let i = is_in_iff t.name done in
    let ih = all_in_iff ts done in
    (
      (λ h. elim (Bool-cases (is_in t.name done)) [
        | inl e ↦ (i.0 e, ih.0 (ground arith))
        | inr e ↦ absurd (ground arith)
      ]),
      (λ h. rw (i.1 h.0) (ih.1 h.1)),
    )

-- The ends of tier updates, in order: the state after them and the callbacks started.
unfoldable pub after_updates : List MarketTier → List String → InitialLoad × ℕ
after_updates ts [] = (record { completed_tiers = []; all_completed = false }, 0)
after_updates ts (name ∷ earlier) =
    let (s, n) = after_updates ts earlier in
    let (s', started) = check_and_trigger_initial_load_completed ts name s in
    (s', if started then n + 1 else n)

In-add_completed :
    (x name : String) (done : List String)
    → In x (add_completed name done) ↔ ((name ≡ x) ⊎ In x done)
In-add_completed x name done = elim (Bool-cases (is_in name done)) [
  | inl e ↦ rw e (
    (λ h. inr h),
    (λ h. elim h [ inl p ↦ subst (λ y. In y done) p ((is_in_iff name done).0 e) | inr i ↦ i ]),
  )
  | inr e ↦ rw e (
    (λ h. elim (In-append_cases x done (name ∷ []) h) [
      | inl i ↦ inr i
      | inr j ↦ elim j [ inl p ↦ inl p | inr b ↦ absurd b ]
    ]),
    (λ h. elim h [
      | inl p ↦ In-append_right x done (name ∷ []) (inl p)
      | inr i ↦ In-append_left x done (name ∷ []) i
    ]),
  )
]

IsDistinct-add_completed :
    (name : String) (done : List String) → IsDistinct done → IsDistinct (add_completed name done)
IsDistinct-add_completed name done h = elim (Bool-cases (is_in name done)) [
  | inl e ↦ rw e h
  | inr e ↦
      rw e
        (IsDistinct-append_one name done h (λ i. absurd (let t = (is_in_iff name done).1 i in cc)))
]

-- What holds between two updates, `seen` being the tiers that have been updated.
record IsTracked (ts : List MarketTier) (seen : List String) (s : InitialLoad) (n : ℕ)
    : Type 0 where
  distinct : IsDistinct s.completed_tiers
  same : (x : String) → In x s.completed_tiers ↔ In x seen
  once : n ≡ (if s.all_completed then 1 else 0)
  complete : (s.all_completed ≡ true) ↔ IsWithin (names ts) seen

abbrev outcome : List String → Bool → Bool → InitialLoad × Bool
outcome done was test =
    if not was && test
    then (record { completed_tiers = done; all_completed = true }, true)
    else (record { completed_tiers = done; all_completed = was }, false)

IsTracked-outcome :
    (ts : List MarketTier) (done seen : List String) (was test : Bool) (n : ℕ)
    → IsDistinct done
    → ((x : String) → In x done ↔ In x seen)
    → n ≡ (if was then 1 else 0)
    → (was ≡ true → IsWithin (names ts) seen)
    → (test ≡ true) ↔ IsWithin (names ts) seen
    → IsTracked ts seen (outcome done was test).0 (if (outcome done was test).1 then n + 1 else n)
IsTracked-outcome ts done seen true test n d same once old new = record {
  distinct = d;
  same = same;
  once = once;
  complete = ((λ e. old refl), (λ w. refl));
}
IsTracked-outcome ts done seen false true n d same once old new = record {
  distinct = d;
  same = same;
  once = omega arith;
  complete = ((λ e. new.0 refl), (λ w. refl));
}
IsTracked-outcome ts done seen false false n d same once old new = record {
  distinct = d;
  same = same;
  once = once;
  complete = ((λ e. absurd cc), new.1);
}

moved :
    (xs ys zs : List String) → ((x : String) → In x ys → In x zs) → IsWithin xs ys → IsWithin xs zs
moved xs ys zs f h = All-map_with (λ x. In x ys) (λ x. In x zs) xs f h

same_after :
    (name : String) (done seen : List String)
    → ((x : String) → In x done ↔ In x seen)
    → (x : String) → In x (add_completed name done) ↔ In x (name ∷ seen)
same_after name done seen same x =
    let a = In-add_completed x name done in
    (
      (λ h. elim (a.0 h) [ inl e ↦ inl e | inr j ↦ inr ((same x).0 j) ]),
      (λ h. elim h [ inl e ↦ a.1 (inl e) | inr j ↦ a.1 (inr ((same x).1 j)) ]),
    )

none-IsWithin : (ts : List MarketTier) → ts ≢ [] → ¬ IsWithin (names ts) []
none-IsWithin [] n h = n refl
none-IsWithin (t ∷ ts) n h = h.0

module _ (ts : List MarketTier) (apart : IsDistinct (names ts)) where
  -- The test of the update, on the set of completed tiers.
  test_iff :
      (done : List String)
      → IsDistinct done
      → IsWithin done (names ts)
      → ((length done == length ts && all_in ts done) ≡ true) ↔ IsWithin (names ts) done
  test_iff done d w =
      let a = all_in_iff ts done in
      (
        (λ h. a.0 (ground arith)),
        (λ h.
            let up = length-IsWithin (names ts) done apart h in
            let down = length-IsWithin done (names ts) d w in
            rw (a.1 h) (ground (arith, length-names ts))),
      )

  IsTracked-update :
      (name : String) (seen : List String) (s : InitialLoad) (n : ℕ)
      → In name (names ts)
      → IsWithin seen (names ts)
      → IsTracked ts seen s n
      → IsTracked ts
          (name ∷ seen)
          (check_and_trigger_initial_load_completed ts name s).0
          (if (check_and_trigger_initial_load_completed ts name s).1 then n + 1 else n)
  unfolding check_and_trigger_initial_load_completed
  IsTracked-update name seen s n i w k =
      let done = add_completed name s.completed_tiers in
      let d = IsDistinct-add_completed name s.completed_tiers k.distinct in
      let same : ((x : String) → In x done ↔ In x (name ∷ seen)) =
        same_after name s.completed_tiers seen k.same in
      let known : IsWithin done (names ts) =
        All-of_each (λ x. In x (names ts)) done
          λ x j. elim ((same x).0 j) [
            | inl e ↦ subst (λ y. In y (names ts)) e i
            | inr h ↦ All-each (λ y. In y (names ts)) seen w x h
          ] in
      let test = test_iff done d known in
      IsTracked-outcome ts done (name ∷ seen) s.all_completed
        (length done == length ts && all_in ts done) n d same k.once
        (λ e. moved (names ts) seen (name ∷ seen) (λ x h. inr h) (k.complete.0 e))
        (
          (λ h. moved (names ts) done (name ∷ seen) (λ x. (same x).0) (test.0 h)),
          (λ h. test.1 (moved (names ts) (name ∷ seen) done (λ x. (same x).1) h)),
        )

  after_updates-IsTracked :
      (seen : List String)
      → ts ≢ []
      → IsWithin seen (names ts)
      → IsTracked ts seen (after_updates ts seen).0 (after_updates ts seen).1
  unfolding after_updates
  after_updates-IsTracked [] n w = record {
    distinct = tt;
    same = λ x. ((λ h. h), (λ h. h));
    once = refl;
    complete = ((λ e. absurd cc), (λ h. absurd (none-IsWithin ts n h)));
  }
  after_updates-IsTracked (name ∷ seen) n w =
      let (s, k) = after_updates ts seen in
      IsTracked-update name seen s k w.0 w.1 (after_updates-IsTracked seen n w.1)

  -- For one or more tiers, with different names: when updates of the tiers have come to an end, in any order and any
  -- number of times, the first load is over exactly if each tier has been updated, and the
  -- callback has then been started exactly once, and before that never.
  pub initial_load_once :
      (seen : List String)
      → ts ≢ []
      → IsWithin seen (names ts)
      → (((after_updates ts seen).0.all_completed ≡ true) ↔ IsWithin (names ts) seen)
        × ((after_updates ts seen).1 ≡ (if (after_updates ts seen).0.all_completed then 1 else 0))
  initial_load_once seen n w = let k = after_updates-IsTracked seen n w in (k.complete, k.once)
