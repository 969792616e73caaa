-- ===== src/Prelude/Suffix.antt =====
-- Go strings: the suffix tests of package strings.
use Prim.Native.Char.{Char, code}
use Prim.Native.Nat.{ℕ, suc, ◌+◌}
use Prim.Native.String.{String}
use mathlib.Core.Path.{◌≡◌, refl, ap, sym, ◌∙◌}
use mathlib.Core.Logic.{inl, inr}
use mathlib.Core.Option.{Option, none, some}
use native.Mathlib.Omega.{arith}
use market_proxy.Prelude.Tests.{◌==◌, string_eq, if◌then◌else◌, Bool-cases, Option-cases}
use market_proxy.Prelude.Text.{concat}

-- `strings.TrimSuffix` where `strings.HasSuffix` holds.
abbrev push : Char → Option String → Option String
push c none = none
push c (some s) = some (String.◌∷◌ c s)

unfoldable pub cut_suffix : String → String → Option String
cut_suffix suffix String.[] = if suffix == "" then some "" else none
cut_suffix suffix (String.◌∷◌ c s) =
    let shorter = cut_suffix suffix s in
    if suffix == String.◌∷◌ c s then some "" else push c shorter

count : String → ℕ
count String.[] = 0
count (String.◌∷◌ c s) = suc (count s)

count-concat : (s t : String) → count (concat s t) ≡ count s + count t
unfolding count
count-concat String.[] t = omega arith
count-concat (String.◌∷◌ c s) t = omega (arith, count-concat s t)

cut_whole : (suffix : String) → cut_suffix suffix suffix ≡ some ""
unfolding cut_suffix
cut_whole String.[] = refl
cut_whole (String.◌∷◌ c s) = rw ((string_eq.same_iff (String.◌∷◌ c s) (String.◌∷◌ c s)).1 refl) refl

pub cut_suffix-concat : (suffix t : String) → cut_suffix suffix (concat t suffix) ≡ some t
unfolding cut_suffix count
cut_suffix-concat suffix String.[] = cut_whole suffix
cut_suffix-concat suffix (String.◌∷◌ c t) =
    elim (Bool-cases (suffix == String.◌∷◌ c (concat t suffix))) [
      | inr e ↦ rw (e, cut_suffix-concat suffix t) refl
      | inl e ↦
          let same = ap count ((string_eq.same_iff suffix (String.◌∷◌ c (concat t suffix))).0 e) in
          absurd (omega (arith, same, count-concat t suffix))
    ]

some_injective : {A : Type 0} → (x y : A) → some x ≡ some y → x ≡ y
some_injective x y e = cc

-- What is cut is the suffix, and what is left stood before it.
pub cut_suffix_back : (suffix s t : String) → cut_suffix suffix s ≡ some t → s ≡ concat t suffix
unfolding cut_suffix
cut_suffix_back suffix String.[] t h = elim (Bool-cases (suffix == "")) [
  | inl e ↦
      let h' : some "" ≡ some t = sym (rw e refl) ∙ h in
      sym ((string_eq.same_iff suffix "").0 e) ∙ ap (λ x. concat x suffix) (some_injective "" t h')
  | inr e ↦ absurd (let h' : none ≡ some t = sym (rw e refl) ∙ h in cc)
]
cut_suffix_back suffix (String.◌∷◌ c s) t h = elim (Bool-cases (suffix == String.◌∷◌ c s)) [
  | inl e ↦
      let h' : some "" ≡ some t = sym (rw e refl) ∙ h in
      sym ((string_eq.same_iff suffix (String.◌∷◌ c s)).0 e)
      ∙ ap (λ x. concat x suffix) (some_injective "" t h')
  | inr e ↦
      let h' : push c (cut_suffix suffix s) ≡ some t = sym (rw e refl) ∙ h in
      elim (Option-cases (cut_suffix suffix s)) [
        | inl n ↦ absurd (let h'' : none ≡ some t = sym (rw n refl) ∙ h' in cc)
        | inr (t', y) ↦
            let h'' : some (String.◌∷◌ c t') ≡ some t = sym (rw y refl) ∙ h' in
            ap (String.◌∷◌ c) (cut_suffix_back suffix s t' y)
            ∙ ap (λ x. concat x suffix) (some_injective (String.◌∷◌ c t') t h'')
      ]
]

abbrev pub last_or : ℕ → String → ℕ
last_or d String.[] = d
last_or d (String.◌∷◌ c s) = last_or (code c) s

-- The last character.
pub last_or-concat : (d : ℕ) (s t : String) → last_or d (concat s t) ≡ last_or (last_or d s) t
last_or-concat d String.[] t = refl
last_or-concat d (String.◌∷◌ c s) t = last_or-concat (code c) s t
