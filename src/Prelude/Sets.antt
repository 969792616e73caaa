-- ===== src/Prelude/Sets.antt =====
-- Go maps to `bool` that only hold `true`, as lists of keys.
use mathlib.Core.Path.{◌≡◌, refl, sym, ◌∙◌, subst}
use mathlib.Core.Logic.{◌↔◌, ◌≢◌, inl, inr}
use mathlib.Core.Bool.{Bool, true, false}
use mathlib.Core.List.{List, [], ◌∷◌, ◌++◌}
use Prim.Native.Nat.{◌≤◌, ◌<◌}
use Prim.Native.String.{String}
use native.Mathlib.Omega.{arith}
use market_proxy.Prelude.Tests.{◌==◌, string_eq, if◌then◌else◌, Bool-cases, different}
use market_proxy.Prelude.Lists.{length}
use market_proxy.Prelude.Preds.{All, All-append, Pairs, In}

abbrev pub is_in : String → List String → Bool
is_in k [] = false
is_in k (j ∷ js) = let rest = is_in k js in if j == k then true else rest

pub is_in_iff : (k : String) (js : List String) → (is_in k js ≡ true) ↔ In k js
is_in_iff k [] = ((λ h. absurd cc), (λ h. absurd h))
is_in_iff k (j ∷ js) =
    let ih = is_in_iff k js in
    (
      (λ h. elim (Bool-cases (j == k)) [
        | inl e ↦ inl ((string_eq.same_iff j k).0 e)
        | inr e ↦ inr (ih.0 (ground arith))
      ]),
      (λ h. elim h [
        | inl p ↦ rw ((string_eq.same_iff j k).1 p) refl
        | inr q ↦ elim (Bool-cases (j == k)) [ inl e ↦ rw e refl | inr e ↦ rw e (ih.1 q) ]
      ]),
    )

-- Removing every occurrence of a key.
unfoldable pub without : String → List String → List String
without x [] = []
without x (y ∷ ys) = let rest = without x ys in if x == y then rest else y ∷ rest

pub In-without : (x y : String) (ys : List String) → In y (without x ys) ↔ ((x ≢ y) × In y ys)
unfolding without
In-without x y [] = ((λ h. absurd h), (λ h. absurd h.1))
In-without x y (z ∷ zs) =
    let ih = In-without x y zs in
    elim (Bool-cases (x == z)) [
      | inl e ↦ rw e (
          let xz = (string_eq.same_iff x z).0 e in
          (
            (λ h. let r = ih.0 h in (r.0, inr r.1)),
            (λ h. elim h.1 [ inl p ↦ absurd (h.0 (xz ∙ p)) | inr q ↦ ih.1 (h.0, q) ]),
          ))
      | inr e ↦ rw e (
        (λ h. elim h [
          | inl p ↦ ((λ q. different x z e (q ∙ sym p)), inl p)
          | inr q ↦ (let r = ih.0 q in (r.0, inr r.1))
        ]),
        (λ h. elim h.1 [ inl p ↦ inl p | inr q ↦ inr (ih.1 (h.0, q)) ]),
      )
    ]

length-without_le : (x : String) (ys : List String) → length (without x ys) ≤ length ys
unfolding without
length-without_le x [] = omega arith
length-without_le x (y ∷ ys) = ground (arith, length-without_le x ys)

length-without_lt : (x : String) (ys : List String) → In x ys → length (without x ys) < length ys
unfolding without
length-without_lt x [] h = absurd h
length-without_lt x (y ∷ ys) h = elim (Bool-cases (x == y)) [
  | inl e ↦ rw e (omega (arith, length-without_le x ys))
  | inr e ↦ rw e (elim h [
    | inl p ↦ absurd (different x y e (sym p))
    | inr q ↦ omega (arith, length-without_lt x ys q)
  ])
]

abbrev pub IsDistinct : List String → Type 0
IsDistinct xs = Pairs (λ a b. a ≢ b) xs

abbrev pub IsWithin : List String → List String → Type 0
IsWithin xs ys = All (λ x. In x ys) xs

apart-IsWithin :
    (x : String) (xs ys : List String)
    → All (λ y. x ≢ y) xs
    → IsWithin xs ys
    → IsWithin xs (without x ys)
apart-IsWithin x [] ys a h = tt
apart-IsWithin x (z ∷ xs) ys a h =
    ((In-without x z ys).1 (a.0, h.0), apart-IsWithin x xs ys a.1 h.1)

-- A set within another has no more members.
pub length-IsWithin : (xs ys : List String) → IsDistinct xs → IsWithin xs ys → length xs ≤ length ys
length-IsWithin [] ys d h = omega arith
length-IsWithin (x ∷ xs) ys d h =
    let ih = length-IsWithin xs (without x ys) d.1 (apart-IsWithin x xs ys d.0 h.1) in
    omega (arith, ih, length-without_lt x ys h.0)

module _ {κ} (P : String → Type κ) where
  pub All-of_each : (xs : List String) → ((x : String) → In x xs → P x) → All P xs
  All-of_each [] h = tt
  All-of_each (x ∷ xs) h = (h x (inl refl), All-of_each xs (λ y i. h y (inr i)))

  pub All-each : (xs : List String) → All P xs → (x : String) → In x xs → P x
  All-each [] h x i = absurd i
  All-each (y ∷ ys) h x (inl e) = subst P e h.0
  All-each (y ∷ ys) h x (inr i) = All-each ys h.1 x i

pub IsDistinct-append_one :
    (name : String) (xs : List String) → IsDistinct xs → ¬ In name xs → IsDistinct (xs ++ name ∷ [])
IsDistinct-append_one name [] d n = (tt, tt)
IsDistinct-append_one name (x ∷ xs) d n = (
  All-append (λ y. x ≢ y) xs (name ∷ []) d.0 ((λ e. n (inl e)), tt),
  IsDistinct-append_one name xs d.1 (λ i. n (inr i)),
)
