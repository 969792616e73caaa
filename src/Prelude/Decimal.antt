-- ===== src/Prelude/Decimal.antt =====
-- Go numbers as text: the verb %d with `strconv.Itoa`, and `strconv.Atoi`.
use Prim.Native.Char.{code}
use Prim.Native.Nat.{ℕ, zero, suc, ◌+◌, ◌-◌, ◌*◌, ◌/◌, ◌%◌, ◌≤◌, ◌<◌}
use Prim.Native.String.{String}
use mathlib.Core.Path.{◌≡◌, refl, ap, sym, ◌∙◌}
use mathlib.Core.Logic.{inl, inr}
use mathlib.Core.Bool.{Bool, true, false, ◌&&◌}
use mathlib.Core.Option.{Option, none, some}
use mathlib.Core.List.{List, [], ◌∷◌}
use native.Mathlib.Omega.{arith}
use market_proxy.Prelude.Tests.{ltb, leb, nat_beq, if◌then◌else◌, Bool-cases}
use market_proxy.Prelude.Int.{ℤ, pos, negsuc, ◌-ℤ◌}
use market_proxy.Prelude.Text.{concat}

abbrev nth : ℕ → List String → String
nth n [] = ""
nth zero (s ∷ ss) = s
nth (suc n) (s ∷ ss) = nth n ss

abbrev digit : ℕ → String
digit n = nth n ("0" ∷ "1" ∷ "2" ∷ "3" ∷ "4" ∷ "5" ∷ "6" ∷ "7" ∷ "8" ∷ "9" ∷ [])

unfoldable pub digits : ℕ → ℕ → String
digits zero n = digit n
digits (suc fuel) n = if ltb n 10 then digit n else concat (digits fuel (n / 10)) (digit (n % 10))

unfoldable pub decimal : ℤ → String
unfolding digits
decimal (pos n) = digits n n
decimal (negsuc n) = concat "-" (digits n (suc n))

-- The digits of `s` behind those that gave `acc`; none where another character stands.
unfoldable pub digits_from : ℕ → String → Option ℕ
digits_from acc String.[] = some acc
digits_from acc (String.◌∷◌ c s) =
    let rest = digits_from (acc * 10 + (code c - 48)) s in
    if leb 48 (code c) && leb (code c) 57 then rest else none

abbrev pub max_int : ℕ
max_int = 9_223_372_036_854_775_807

abbrev positive : Option ℕ → Option ℤ
positive none = none
positive (some n) = if leb n max_int then some (pos n) else none

abbrev negative : Option ℕ → Option ℤ
negative none = none
negative (some n) = if leb n (suc max_int) then some (pos 0 -ℤ pos n) else none

abbrev some_digits : String → Option ℕ
some_digits String.[] = none
some_digits (String.◌∷◌ c s) = digits_from 0 (String.◌∷◌ c s)

-- `strconv.Atoi`
unfoldable pub atoi : String → Option ℤ
unfolding digits_from
atoi String.[] = none
atoi (String.◌∷◌ c s) =
    if nat_beq (code c) 43
    then positive (some_digits s)
    else (if nat_beq (code c) 45
        then negative (some_digits s)
        else positive (some_digits (String.◌∷◌ c s)))

abbrev then_digits : Option ℕ → String → Option ℕ
then_digits none t = none
then_digits (some a) t = digits_from a t

digits_from-concat :
    (acc : ℕ) (s t : String) → digits_from acc (concat s t) ≡ then_digits (digits_from acc s) t
unfolding digits_from
digits_from-concat acc String.[] t = refl
digits_from-concat acc (String.◌∷◌ c s) t = elim (Bool-cases (leb 48 (code c) && leb (code c) 57)) [
  | inl e ↦ rw e (digits_from-concat (acc * 10 + (code c - 48)) s t)
  | inr e ↦ rw e refl
]

abbrev has_first : String → Bool
has_first String.[] = false
has_first (String.◌∷◌ c s) = true

digit_lem :
    (acc d : ℕ)
    → d < 10
    → (digits_from acc (digit d) ≡ some (acc * 10 + d)) × (has_first (digit d) ≡ true)
unfolding digits_from
digit_lem acc zero h = (refl, refl)
digit_lem acc (suc zero) h = (refl, refl)
digit_lem acc (suc (suc zero)) h = (refl, refl)
digit_lem acc (suc (suc (suc zero))) h = (refl, refl)
digit_lem acc (suc (suc (suc (suc zero)))) h = (refl, refl)
digit_lem acc (suc (suc (suc (suc (suc zero))))) h = (refl, refl)
digit_lem acc (suc (suc (suc (suc (suc (suc zero)))))) h = (refl, refl)
digit_lem acc (suc (suc (suc (suc (suc (suc (suc zero))))))) h = (refl, refl)
digit_lem acc (suc (suc (suc (suc (suc (suc (suc (suc zero)))))))) h = (refl, refl)
digit_lem acc (suc (suc (suc (suc (suc (suc (suc (suc (suc zero))))))))) h = (refl, refl)
digit_lem acc (suc (suc (suc (suc (suc (suc (suc (suc (suc (suc d)))))))))) h = absurd (omega arith)

digits_from-digits : (fuel n : ℕ) → n ≤ fuel → digits_from 0 (digits fuel n) ≡ some n
unfolding digits
digits_from-digits zero n h = (digit_lem 0 n (omega arith)).0 ∙ ap some (omega arith)
digits_from-digits (suc fuel) n h = elim (Bool-cases (ltb n 10)) [
  | inl e ↦ rw e ((digit_lem 0 n (ground (arith, e))).0 ∙ ap some (omega arith))
  | inr e ↦
      let front = digits_from-digits fuel (n / 10) (ground (arith, e)) in
      let cut : digits_from 0 (concat (digits fuel (n / 10)) (digit (n % 10)))
          ≡ then_digits (some (n / 10)) (digit (n % 10)) =
        digits_from-concat 0 (digits fuel (n / 10)) (digit (n % 10))
        ∙ ap (λ o. then_digits o (digit (n % 10))) front in
      let whole : n / 10 * 10 + n % 10 ≡ n = omega arith in
      rw e (cut ∙ (digit_lem (n / 10) (n % 10) (omega arith)).0 ∙ ap some whole)
]

has_first-concat : (s t : String) → has_first t ≡ true → has_first (concat s t) ≡ true
has_first-concat String.[] t h = h
has_first-concat (String.◌∷◌ c s) t h = refl

has_first-digits : (fuel n : ℕ) → n ≤ fuel → has_first (digits fuel n) ≡ true
unfolding digits
has_first-digits zero n h = (digit_lem 0 n (omega arith)).1
has_first-digits (suc fuel) n h = elim (Bool-cases (ltb n 10)) [
  | inl e ↦ rw e ((digit_lem 0 n (ground (arith, e))).1)
  | inr e ↦ rw e (
      has_first-concat (digits fuel (n / 10)) (digit (n % 10))
        (digit_lem 0 (n % 10) (omega arith)).1)
]

-- A first character that is a digit is no sign.
atoi_digits :
    (s : String) (n : ℕ)
    → has_first s ≡ true
    → digits_from 0 s ≡ some n
    → n ≤ max_int
    → atoi s ≡ some (pos n)
unfolding atoi digits_from
atoi_digits String.[] n f h m = absurd cc
atoi_digits (String.◌∷◌ c s) n f h m = elim (Bool-cases (leb 48 (code c) && leb (code c) 57)) [
  | inr e ↦ absurd (let q : none ≡ some n = sym (rw e refl) ∙ h in cc)
  | inl e ↦
      let p : nat_beq (code c) 43 ≡ false = ground (arith, e) in
      let q : nat_beq (code c) 45 ≡ false = ground (arith, e) in
      let r : leb n max_int ≡ true = ground (arith, m) in rw (p, q, h, r) refl
]

pub atoi-decimal : (n : ℕ) → n ≤ max_int → atoi (decimal (pos n)) ≡ some (pos n)
unfolding decimal
atoi-decimal n m =
    atoi_digits (digits n n) n (has_first-digits n n (omega arith))
      (digits_from-digits n n (omega arith)) m
