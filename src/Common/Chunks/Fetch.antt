-- ===== src/Common/Chunks/Fetch.antt =====
-- What process_in_chunks.go does: it fetches the chunks of the plan in order, and stops at the
-- first error.
use market_proxy.Prelude.{
  ℕ, zero, suc, ◌+◌, ◌≤◌, String, ◌≡◌, refl, ap, ◌∙◌, Bool, true, false, List, [], ◌∷◌, ◌++◌, arith,
  length, flatten, All, Bool-cases, inl, inr, if◌then◌else◌,
}
use mathlib.Core.Path.{fun_ext}
use mathlib.Core.List.{append_assoc, append-nil}
use market_proxy.Prelude.Int.{ℤ, pos, ◌<ℤ◌, leb_ℤ}
use market_proxy.Prelude.Errors.{msg, Result, ok, err}
use market_proxy.Common.Chunks.{
  FetchFunc, cancelled, after_fetch, chunk_loop, process_in_chunks, next_chunk, chunk_array_fetcher,
  map_result,
}
use market_proxy.Common.Chunks.Plan.{
  IsChunk, IsGreedy, plan, flatten-plan, plan-IsChunk, plan-IsGreedy, next_chunk-shorter,
}

not_empty : (limit : ℤ) → pos 0 <ℤ limit → leb_ℤ limit (pos 0) ≡ false
not_empty limit h = ground arith

module _ {S T : Type 0} (done : ℕ → Bool) (limit string_limit delay : ℤ)
    (fetch : FetchFunc S T) where
  -- Fetching given chunks one after the other, the first of them as number n.
  pub fetch_each : ℕ → List (List String) → List T → S → Result (List T) × S
  fetch_each n [] results s = (ok results, s)
  fetch_each n (c ∷ cs) results s =
      let round =
        after_fetch (fetch s c)
          (λ (v : T) (s' : S). fetch_each (n + 1) cs (results ++ v ∷ []) s') in
      if cancelled done limit string_limit delay fetch n
      then (err (msg "context done"), s)
      else round

  chunk_loop-eq-fetch_each :
      (fuel n : ℕ) (xs : List String) (results : List T) (s : S)
      → pos 0 <ℤ limit
      → length xs ≤ fuel
      → chunk_loop done limit string_limit delay fetch fuel n xs results s
        ≡ fetch_each n (plan limit string_limit fuel xs) results s
  unfolding chunk_loop fetch_each plan
  chunk_loop-eq-fetch_each fuel n [] results s h f = refl
  chunk_loop-eq-fetch_each zero n (x ∷ xs) results s h f = absurd (omega arith)
  chunk_loop-eq-fetch_each (suc fuel) n (x ∷ xs) results s h f =
      ap
        (λ k.
          if cancelled done limit string_limit delay fetch n
          then (err (msg "context done"), s)
          else after_fetch (fetch s (next_chunk limit string_limit (x ∷ xs)).0) k)
        (fun_ext λ v. fun_ext λ s'.
          chunk_loop-eq-fetch_each fuel (n + 1) (next_chunk limit string_limit (x ∷ xs)).1
            (results ++ v ∷ []) s' h (omega (arith, next_chunk-shorter limit string_limit x xs h)))

  -- The chunks of a list of items, and what they are.
  abbrev pub chunks : List String → List (List String)
  chunks items = plan limit string_limit (length items) items

  process_in_chunks-eq-fetch_each :
      (items : List String) (s : S)
      → pos 0 <ℤ limit
      → process_in_chunks done limit string_limit delay fetch items s
        ≡ fetch_each 0 (chunks items) [] s
  unfolding process_in_chunks fetch_each plan
  process_in_chunks-eq-fetch_each [] s h = refl
  process_in_chunks-eq-fetch_each (x ∷ xs) s h =
      rw (not_empty limit h)
        (chunk_loop-eq-fetch_each (suc (length xs)) 0 (x ∷ xs) [] s h (omega arith))

  -- With a limit of at least one item, the ids are cut into chunks that hold all of them in their
  -- order, each within both limits (an item that is too long for any chunk makes one alone) and
  -- none of them with room for its successor's first item; and these are fetched in turn, up to
  -- the first that fails or is cancelled.
  pub process_in_chunks-IsPartition :
      (items : List String) (s : S)
      → pos 0 <ℤ limit
      → (flatten (chunks items) ≡ items)
        × All (IsChunk limit string_limit) (chunks items)
        × IsGreedy limit string_limit (chunks items)
        × (process_in_chunks done limit string_limit delay fetch items s
            ≡ fetch_each 0 (chunks items) [] s)
  process_in_chunks-IsPartition items s h = (
    flatten-plan limit string_limit (length items) items h (omega arith),
    plan-IsChunk limit string_limit (length items) items h,
    plan-IsGreedy limit string_limit (length items) items h (omega arith),
    process_in_chunks-eq-fetch_each items s h,
  )

after_fetch-ok :
    {S T R : Type 0} (p : Result T × S) (v : T) (go_on : T → S → Result R × S)
    → p.0 ≡ ok v
    → after_fetch p go_on ≡ go_on v p.1
after_fetch-ok (ok w, s) v go_on h = ap (λ u. go_on u s) (ground arith)
after_fetch-ok (err e, s) v go_on h = cc

flatten-append_one :
    {V : Type 0} (xss : List (List V)) (ys : List V) → flatten (xss ++ ys ∷ []) ≡ flatten xss ++ ys
flatten-append_one [] ys = append-nil ys
flatten-append_one (xs ∷ xss) ys = simp (flatten-append_one xss ys, append_assoc)

process_in_chunks_unlimited :
    {S T : Type 0} (done : ℕ → Bool) (limit string_limit delay : ℤ) (fetch : FetchFunc S T)
    (items : List String) (s : S)
    → leb_ℤ limit (pos 0) ≡ true
    → process_in_chunks done limit string_limit delay fetch items s ≡ (ok [], s)
unfolding process_in_chunks
process_in_chunks_unlimited done limit string_limit delay fetch [] s h = refl
process_in_chunks_unlimited done limit string_limit delay fetch (x ∷ xs) s h = rw h

module _ {S V : Type 0} (done : ℕ → Bool) (limit string_limit delay : ℤ)
    (fetch : FetchFunc S (List V)) (g : List String → List V)
    (never_done : (n : ℕ) → done n ≡ false)
    (fetches : (s : S) (c : List String) → (fetch s c).0 ≡ ok (g c)) (g_nil : g [] ≡ [])
    (g_append : (xs ys : List String) → g (xs ++ ys) ≡ g xs ++ g ys) where
  not_cancelled : (n : ℕ) → cancelled done limit string_limit delay fetch n ≡ false
  not_cancelled n = ground (arith, never_done n)

  flatten-fetch_each :
      (n : ℕ) (cs : List (List String)) (results : List (List V)) (s : S)
      → (map_result flatten (fetch_each done limit string_limit delay fetch n cs results s)).0
        ≡ ok (flatten results ++ g (flatten cs))
  unfolding fetch_each
  flatten-fetch_each n [] results s = rw (g_nil, append-nil)
  flatten-fetch_each n (c ∷ cs) results s = rw (not_cancelled n) (
      rw (after_fetch-ok (fetch s c) (g c) _ (fetches s c)) (
        flatten-fetch_each (n + 1) cs (results ++ g c ∷ []) (fetch s c).1
        ∙ ap ok (simp (flatten-append_one, g_append, append_assoc))))

  -- A fetch function that answers every chunk, item by item, answers the whole list: whatever the
  -- chunks are, the result is that of one call with all the ids. Without a limit of at least one
  -- item nothing is fetched.
  pub chunk_array_fetcher_lem :
      (items : List String) (s : S)
      → (chunk_array_fetcher done limit string_limit delay fetch items s).0
        ≡ ok (if leb_ℤ limit (pos 0) then [] else g items)
  unfolding chunk_array_fetcher
  chunk_array_fetcher_lem items s = elim (Bool-cases (leb_ℤ limit (pos 0))) [
    | inl e ↦ rw e (
        ap (λ r. (map_result flatten r).0)
          (process_in_chunks_unlimited done limit string_limit delay fetch items s e))
    | inr e ↦ rw e (
        let positive : pos 0 <ℤ limit = ground arith in
        ap (λ r. (map_result flatten r).0)
          (process_in_chunks-eq-fetch_each done limit string_limit delay fetch items s positive)
        ∙ flatten-fetch_each 0 (chunks done limit string_limit delay fetch items) [] s
        ∙ ap (λ t. ok (g t))
            (flatten-plan limit string_limit (length items) items positive (omega arith)))
  ]
