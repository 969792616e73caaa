-- ===== src/Prelude/Maps.antt =====
-- Go maps as association lists, the newest write last. The order of the list stands for the
-- order in which `range` meets the keys, which Go leaves open.
use mathlib.Core.Path.{◌≡◌, refl, ◌∙◌}
use mathlib.Core.Logic.{◌≢◌, ◌⊎◌, inl, inr}
use mathlib.Core.Bool.{true, false}
use mathlib.Core.Option.{Option, none, some}
use mathlib.Core.List.{List, [], ◌∷◌}
use native.Mathlib.Omega.{arith}
use market_proxy.Prelude.Preds.{All, Pairs}
use market_proxy.Prelude.Tests.{Bool-cases, Eq, ◌==◌, if◌then◌else◌}

abbrev pub Map {ℓ κ} : Type ℓ → Type κ → Type (ℓ ⊔ κ)
Map K V = List (K × V)

abbrev pub or_in {κ} : {V : Type κ} → Option V → Option V → Option V
or_in (some v) later = some v
or_in none later = later

module _ {ℓ κ} {K : Type ℓ} {V : Type κ} ⦃e : Eq K⦄ where
  unfoldable pub lookup : K → Map K V → Option V
  lookup k [] = none
  lookup k ((i, found) ∷ m) = if i == k then some found else lookup k m

  unfoldable pub insert : K → V → Map K V → Map K V
  insert k v [] = (k, v) ∷ []
  insert k v ((i, old) ∷ m) = if i == k then (i, v) ∷ m else (i, old) ∷ insert k v m

  unfoldable pub delete : K → Map K V → Map K V
  delete k [] = []
  delete k ((j, w) ∷ m) = let rest = delete k m in if j == k then rest else (j, w) ∷ rest

  -- `for k, v := range src { dest[k] = v }`
  unfoldable pub merge : Map K V → Map K V → Map K V
  merge dest [] = dest
  merge dest ((k, v) ∷ src) = merge (insert k v dest) src

  pub lookup-insert :
      (key asked : K) (new : V) (m : Map K V)
      → lookup asked (insert key new m) ≡ (if key == asked then some new else lookup asked m)
  unfolding insert lookup
  lookup-insert key asked new [] = refl
  lookup-insert key asked new ((i, old) ∷ m) =
      let ih = lookup-insert key asked new m in
      ground
        (arith, ih, e.same_iff key asked, e.same_iff key key, e.same_iff i asked, e.same_iff i key)

  pub lookup-delete :
      (k j : K) (m : Map K V) → lookup j (delete k m) ≡ (if k == j then none else lookup j m)
  unfolding lookup delete
  lookup-delete k j [] = ground arith
  lookup-delete k j ((i, w) ∷ m) =
      ground (arith, e.same_iff k j, e.same_iff i k, e.same_iff i j, lookup-delete k j m)

  -- Each key stands once, as in every Go map.
  abbrev pub IsGoMap : Map K V → Type ℓ
  IsGoMap m = Pairs (λ (a b : K × V). a.0 ≢ b.0) m

  pub lookup_absent : (k : K) (m : Map K V) → All (λ (b : K × V). k ≢ b.0) m → lookup k m ≡ none
  unfolding lookup
  lookup_absent k [] h = refl
  lookup_absent k ((j, w) ∷ m) h = ground (arith, e.same_iff j k, h.0, lookup_absent k m h.1)

  pub lookup-merge :
      (k : K) (dest src : Map K V)
      → IsGoMap src
      → lookup k (merge dest src) ≡ or_in (lookup k src) (lookup k dest)
  unfolding lookup merge
  lookup-merge k dest [] h = refl
  lookup-merge k dest ((j, w) ∷ src) h =
      lookup-merge k (insert j w dest) src h.1 ∙ step (Bool-cases (j == k))
    where
      step :
          ((j == k) ≡ true) ⊎ ((j == k) ≡ false)
          → or_in (lookup k src) (lookup k (insert j w dest))
            ≡ or_in (if j == k then some w else lookup k src) (lookup k dest)
      step (inl q) =
          ground (arith, lookup-insert j k w dest, lookup_absent j src h.0, e.same_iff j k, q)
      step (inr q) = ground (arith, lookup-insert j k w dest, q)

  insert-apart :
      (j k : K) (v : V) (m : Map K V)
      → j ≢ k
      → All (λ (b : K × V). j ≢ b.0) m
      → All (λ (b : K × V). j ≢ b.0) (insert k v m)
  unfolding insert
  insert-apart j k v [] n h = (n, tt)
  insert-apart j k v ((i, w) ∷ m) n h = elim (Bool-cases (i == k)) [
    | inl q ↦ rw q h
    | inr q ↦ rw q (h.0, insert-apart j k v m n h.1)
  ]

  -- A map that is filled key by key has each key once.
  pub insert-IsGoMap : (k : K) (v : V) (m : Map K V) → IsGoMap m → IsGoMap (insert k v m)
  unfolding insert
  insert-IsGoMap k v [] h = (tt, tt)
  insert-IsGoMap k v ((i, w) ∷ m) h = elim (Bool-cases (i == k)) [
    | inl q ↦ rw q h
    | inr q ↦ rw q (
      insert-apart i k v m (λ p. absurd (let r = (e.same_iff i k).1 p in cc)) h.0,
      insert-IsGoMap k v m h.1,
    )
  ]
