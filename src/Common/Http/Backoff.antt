-- ===== src/Common/Http/Backoff.antt =====
-- How long `ExecuteRequest` sleeps before a retry.
use native.Mathlib.Nat.{pow-le-pow_right, one-le-pow, mod-eq_of_lt}
use market_proxy.Prelude.{
  ℕ, suc, ◌+◌, ◌-◌, ◌==◌, refl, true, false, ltb, ◌*◌, ◌/◌, ◌%◌, ◌^◌, ◌≤◌, ◌<◌, ◌≡◌, some, arith,
  nat_eq,
}
use market_proxy.Prelude.Int.{pos}
use market_proxy.Common.Http.{calculate_backoff_with_jitter, float64_of, add_int64}

shifted : (k : ℕ) → k < 64 → 2 ^ k % 2 ^ 64 ≡ 2 ^ k
shifted k h = mod-eq_of_lt (pow_lt k h)
  where
    pow_lt : (k : ℕ) → k < 64 → 2 ^ k < 2 ^ 64
    pow_lt k h =
        omega (arith, pow-le-pow_right {n = 2} (omega arith) {i = k} {j = 63} (omega arith))

-- The multiple of the base that attempt k + 1 waits for.
abbrev pub doubled : ℕ → ℕ → ℕ
doubled base k = base * 2 ^ k

pred : (k : ℕ) → suc k - 1 ≡ k
pred k = omega arith

later : (k : ℕ) → (suc k == 0) ≡ false
later k = ground arith

halves : (n : ℕ) → 2 ≤ n → (n / 2 == 0) ≡ false
halves n h = ground (arith, h)

ltb_below : (a b : ℕ) → a < b → ltb a b ≡ true
ltb_below a b h = ground (arith, h)

-- The longest sleep before retry k + 1, half as long again as the doubled base, is an int64, and the
-- base is exact as a float64.
abbrev pub IsShort : ℕ → ℕ → Type 0
IsShort base k = (base < 2 ^ 53) × (3 * doubled base k ≤ 2 ^ 64)

pub earlier-IsShort : (base j k : ℕ) → j ≤ k → IsShort base k → IsShort base j
earlier-IsShort base j k le h =
    let grows : doubled base j ≤ doubled base k =
      grind (arith, pow-le-pow_right {n = 2} (omega arith) le) in
    (h.0, omega (arith, h.1, grows))

module _ (int63n : ℕ → ℕ) (base : ℕ) (at_least_two : 2 ≤ base) where
  doubled_pos : (k : ℕ) → 2 ≤ doubled base k
  doubled_pos k = grind (arith, one-le-pow k 2 (omega arith))

  float64_of_small : base < 2 ^ 53 → float64_of base ≡ base
  unfolding float64_of
  float64_of_small h = rw (ltb_below base (2 ^ 53) h) refl

  -- With a generator that keeps its contract, a base of 2 nanoseconds or more and less than 2^53, and
  -- k < 64, the sleep before retry k + 1 is the base doubled k times, and less than half of that
  -- again, as long as one and a half times the doubled base is an int64.
  pub calculate_backoff_with_jitter_bounds :
      (k : ℕ)
      → ((n : ℕ) → 0 < n → int63n n < n)
      → k < 64
      → IsShort base k
      → (d : ℕ) × (calculate_backoff_with_jitter int63n base (suc k) ≡ some (pos d))
        × (doubled base k ≤ d)
        × (2 * d < 3 * doubled base k)
  unfolding calculate_backoff_with_jitter add_int64
  calculate_backoff_with_jitter_bounds k contract h short =
      let j = int63n (doubled base k / 2) in
      let multiplied : 2 ^ (suc k - 1) % 2 ^ 64 ≡ 2 ^ k = rw (pred k) (shifted k h) in
      let halved : (doubled base k / 2 == 0) ≡ false = halves (doubled base k) (doubled_pos k) in
      let less = contract (doubled base k / 2) (omega (arith, doubled_pos k)) in
      (
        doubled base k + j,
        rw
            (
              later k,
              float64_of_small short.0,
              multiplied,
              ltb_below (doubled base k) (2 ^ 63) (omega (arith, short.1, doubled_pos k)),
              halved,
              ltb_below (doubled base k + j) (2 ^ 63) (omega (arith, short.1, less)),
            )
            refl,
        omega arith,
        omega (arith, less, doubled_pos k),
      )
