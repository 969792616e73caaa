-- ===== src/Common/Chunks/Plan.antt =====
-- What the chunks of process_in_chunks.go are: a partition of the items, each chunk within the
-- limits and as long as they allow.
use market_proxy.Prelude.{
  ℕ, zero, suc, ◌+◌, ◌≤◌, String, ◌≡◌, refl, ap, ◌⊎◌, inl, inr, Bool, true, List, [], ◌∷◌, ◌++◌,
  arith, length, flatten, All, length-append, Bool-cases, ◌&&◌,
}
use market_proxy.Prelude.Text.{byte_len}
use market_proxy.Prelude.Int.{ℤ, pos, ◌≤ℤ◌, ◌<ℤ◌, ltb_ℤ}
use market_proxy.Common.Chunks.{fit, at_least_one, next_chunk}

-- The length of all the strings together.
abbrev pub total : List String → ℕ
total [] = 0
total (x ∷ xs) = byte_len x + total xs

module _ (limit string_limit : ℤ) where
  -- A chunk holds an item, no more than `limit`, and no more text than `string_limit` unless it
  -- holds one item alone. A `string_limit` of 0 or less is none.
  pub record IsChunk (c : List String) : Type 0 where
    pub occupied : 1 ≤ length c
    pub counted : pos (length c) ≤ℤ limit
    pub short : (string_limit ≤ℤ pos 0) ⊎ ((pos (total c) ≤ℤ string_limit) ⊎ (length c ≡ 1))

  -- The chunk could not take the next item too.
  abbrev pub IsFull : List String → List String → Type 0
  IsFull c [] = Unit
  IsFull c (y ∷ rest) =
      (pos (length c) ≡ limit)
      ⊎ ((pos 0 <ℤ string_limit) × (string_limit <ℤ pos (total c + byte_len y)))

  abbrev pub IsGreedy : List (List String) → Type 0
  IsGreedy [] = Unit
  IsGreedy (c ∷ cs) = IsFull c (flatten cs) × IsGreedy cs

  fit-append :
      (taken current : ℕ) (xs : List String)
      → (fit limit string_limit taken current xs).0 ++ (fit limit string_limit taken current xs).1
        ≡ xs
  unfolding fit
  fit-append taken current [] = refl
  fit-append taken current (x ∷ xs) =
      ground (arith, fit-append (taken + 1) (current + byte_len x) xs)

  fit_counted :
      (taken current : ℕ) (xs : List String)
      → pos taken ≤ℤ limit
      → pos (taken + length (fit limit string_limit taken current xs).0) ≤ℤ limit
  unfolding fit
  fit_counted taken current [] h = omega arith
  fit_counted taken current (x ∷ xs) h =
      ground (arith, fit_counted (taken + 1) (current + byte_len x) xs)

  fit_short :
      (taken current : ℕ) (xs : List String)
      → pos 0 <ℤ string_limit
      → pos current ≤ℤ string_limit
      → pos (current + total (fit limit string_limit taken current xs).0) ≤ℤ string_limit
  unfolding fit
  fit_short taken current [] p h = omega arith
  fit_short taken current (x ∷ xs) p h =
      ground (arith, fit_short (taken + 1) (current + byte_len x) xs)

  abbrev FitIsFull : ℕ → ℕ → List String → List String → Type 0
  FitIsFull taken current c [] = Unit
  FitIsFull taken current c (y ∷ rest) =
      (pos (taken + length c) ≡ limit)
      ⊎ ((pos 0 <ℤ string_limit) × (string_limit <ℤ pos (current + total c + byte_len y)))

  FitIsFull-cons :
      (taken current : ℕ) (x : String) (c rest : List String)
      → FitIsFull (taken + 1) (current + byte_len x) c rest
      → FitIsFull taken current (x ∷ c) rest
  FitIsFull-cons taken current x c [] h = tt
  FitIsFull-cons taken current x c (y ∷ rest) (inl e) = inl (ground arith)
  FitIsFull-cons taken current x c (y ∷ rest) (inr (p, q)) = inr (p, omega arith)

  abbrev exceeds : ℕ → String → Bool
  exceeds current x = ltb_ℤ (pos 0) string_limit && ltb_ℤ string_limit (pos (current + byte_len x))

  fit-FitIsFull :
      (taken current : ℕ) (xs : List String)
      → pos taken ≤ℤ limit
      → FitIsFull taken current
          (fit limit string_limit taken current xs).0
          (fit limit string_limit taken current xs).1
  unfolding fit
  fit-FitIsFull taken current [] h = tt
  fit-FitIsFull taken current (x ∷ xs) h = elim (Bool-cases (ltb_ℤ (pos taken) limit)) [
    | inr e ↦ rw e (inl (ground arith))
    | inl e ↦ rw e (elim (Bool-cases (exceeds current x)) [
      | inl f ↦ rw f (inr (ground arith))
      | inr f ↦ rw f (
          FitIsFull-cons taken current x _ _
            (fit-FitIsFull (taken + 1) (current + byte_len x) xs (ground arith)))
    ])
  ]

  abbrev fitted : List String → List String × List String
  fitted = fit limit string_limit 0 0

  -- The first item fits, or it is longer than a whole chunk and makes one by itself.
  next_chunk_cases :
      (x : String) (xs : List String)
      → pos 0 <ℤ limit
      → ((next_chunk limit string_limit (x ∷ xs) ≡ (x ∷ [], xs)) × (exceeds 0 x ≡ true))
        ⊎ ((next_chunk limit string_limit (x ∷ xs) ≡ fitted (x ∷ xs))
            × (1 ≤ length (fitted (x ∷ xs)).0))
  unfolding next_chunk fit at_least_one
  next_chunk_cases x xs h = elim (Bool-cases (exceeds 0 x)) [
    | inl e ↦ inl (ground arith, e)
    | inr e ↦ inr (ground arith, ground arith)
  ]

  pub next_chunk-append :
      (x : String) (xs : List String)
      → pos 0 <ℤ limit
      → (next_chunk limit string_limit (x ∷ xs)).0 ++ (next_chunk limit string_limit (x ∷ xs)).1
        ≡ x ∷ xs
  next_chunk-append x xs h = elim (next_chunk_cases x xs h) [
    | inl (e, _) ↦ rw e
    | inr (e, _) ↦ rw e (fit-append 0 0 (x ∷ xs))
  ]

  pub next_chunk-IsChunk :
      (x : String) (xs : List String)
      → pos 0 <ℤ limit
      → IsChunk (next_chunk limit string_limit (x ∷ xs)).0
  next_chunk-IsChunk x xs h = elim (next_chunk_cases x xs h) [
    | inl (e, _) ↦
        rw e (record { occupied = omega arith; counted = omega arith; short = inr (inr refl) })
    | inr (e, some_fit) ↦ rw e (record {
      occupied = some_fit;
      counted = omega (arith, fit_counted 0 0 (x ∷ xs) (omega arith));
      short = ground (arith, fit_short 0 0 (x ∷ xs));
    })
  ]

  IsFull-alone : (x : String) (xs : List String) → exceeds 0 x ≡ true → IsFull (x ∷ []) xs
  IsFull-alone x [] e = tt
  IsFull-alone x (y ∷ xs) e = inr (ground arith)

  IsFull-fitted : (c rest : List String) → FitIsFull 0 0 c rest → IsFull c rest
  IsFull-fitted c [] h = tt
  IsFull-fitted c (y ∷ rest) (inl e) = inl (ground arith)
  IsFull-fitted c (y ∷ rest) (inr (p, q)) = inr (p, omega arith)

  pub next_chunk-IsFull :
      (x : String) (xs : List String)
      → pos 0 <ℤ limit
      → IsFull (next_chunk limit string_limit (x ∷ xs)).0 (next_chunk limit string_limit (x ∷ xs)).1
  next_chunk-IsFull x xs h = elim (next_chunk_cases x xs h) [
    | inl (e, long) ↦ rw e (IsFull-alone x xs long)
    | inr (e, _) ↦ rw e (IsFull-fitted _ _ (fit-FitIsFull 0 0 (x ∷ xs) (omega arith)))
  ]

  -- The rest is shorter, so the loop comes to an end.
  pub next_chunk-shorter :
      (x : String) (xs : List String)
      → pos 0 <ℤ limit
      → length (next_chunk limit string_limit (x ∷ xs)).1 ≤ length xs
  next_chunk-shorter x xs h = omega (
    arith,
    (next_chunk-IsChunk x xs h).occupied,
    ap length (next_chunk-append x xs h),
    length-append (next_chunk limit string_limit (x ∷ xs)).0
        (next_chunk limit string_limit (x ∷ xs)).1,
  )

  -- The chunks that the loop makes of the items, on fuel.
  unfoldable pub plan : ℕ → List String → List (List String)
  plan fuel [] = []
  plan zero (x ∷ xs) = []
  plan (suc fuel) (x ∷ xs) =
      let (chunk, rest) = next_chunk limit string_limit (x ∷ xs) in chunk ∷ plan fuel rest

  pub flatten-plan :
      (fuel : ℕ) (xs : List String)
      → pos 0 <ℤ limit
      → length xs ≤ fuel
      → flatten (plan fuel xs) ≡ xs
  unfolding plan
  flatten-plan fuel [] h f = refl
  flatten-plan zero (x ∷ xs) h f = absurd (omega arith)
  flatten-plan (suc fuel) (x ∷ xs) h f =
      rw
        (flatten-plan fuel (next_chunk limit string_limit (x ∷ xs)).1 h
          (omega (arith, next_chunk-shorter x xs h)))
        (next_chunk-append x xs h)

  pub plan-IsChunk : (fuel : ℕ) (xs : List String) → pos 0 <ℤ limit → All IsChunk (plan fuel xs)
  unfolding plan
  plan-IsChunk fuel [] h = tt
  plan-IsChunk zero (x ∷ xs) h = tt
  plan-IsChunk (suc fuel) (x ∷ xs) h =
      (next_chunk-IsChunk x xs h, plan-IsChunk fuel (next_chunk limit string_limit (x ∷ xs)).1 h)

  pub plan-IsGreedy :
      (fuel : ℕ) (xs : List String) → pos 0 <ℤ limit → length xs ≤ fuel → IsGreedy (plan fuel xs)
  unfolding plan
  plan-IsGreedy fuel [] h f = tt
  plan-IsGreedy zero (x ∷ xs) h f = tt
  plan-IsGreedy (suc fuel) (x ∷ xs) h f =
      let rest = (next_chunk limit string_limit (x ∷ xs)).1 in
      let enough : length rest ≤ fuel = omega (arith, next_chunk-shorter x xs h) in
      (
        rw (flatten-plan fuel rest h enough) (next_chunk-IsFull x xs h),
        plan-IsGreedy fuel rest h enough,
      )
