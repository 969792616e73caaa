-- ===== src/Common/Chunks.antt =====
-- coingecko_common/process_in_chunks.go: a list of ids is cut into chunks that respect a limit on
-- the number of items and one on the total length of the strings, and fetched chunk by chunk.
--
-- `fetch` passes on a state `S`: what a fetch function logs, counts or hands to its callbacks.
-- `done n` says whether the `select` before chunk n finds the context finished.
pub mod Plan
pub mod Fetch
use market_proxy.Prelude.{
  ℕ, zero, suc, ◌+◌, String, Bool, true, false, ◌&&◌, not, Option, none, some, List, [], ◌∷◌, ◌++◌,
  ◌==◌, nat_eq, string_eq, if◌then◌else◌, length, flatten,
}
use market_proxy.Prelude.Int.{ℤ, pos, ltb_ℤ, leb_ℤ}
use market_proxy.Prelude.Maps.{Map, merge}
use market_proxy.Prelude.Text.{byte_len}
use market_proxy.Prelude.Errors.{Error, msg, wrapped, Result, ok, err}

-- `MaxChunkStringLength`
abbrev pub max_chunk_string_length : ℤ
max_chunk_string_length = pos 5000

-- The inner loop: how the items split into those that still fit and the rest. `taken` is
-- `end - start` and `current` is `currentLength`.
fit : ℤ → ℤ → ℕ → ℕ → List String → List String × List String
fit limit string_limit taken current [] = ([], [])
fit limit string_limit taken current (x ∷ xs) =
    let (more, rest) = fit limit string_limit (taken + 1) (current + byte_len x) xs in
    if ltb_ℤ (pos taken) limit
    then if ltb_ℤ (pos 0) string_limit && ltb_ℤ string_limit (pos (current + byte_len x))
      then ([], x ∷ xs)
      else (x ∷ more, rest)
    else ([], x ∷ xs)

-- An empty chunk takes one item all the same.
at_least_one : List String × List String → List String × List String
at_least_one ([], []) = ([], [])
at_least_one ([], x ∷ rest) = (x ∷ [], rest)
at_least_one (x ∷ chunk, rest) = (x ∷ chunk, rest)

unfoldable pub next_chunk : ℤ → ℤ → List String → List String × List String
unfolding fit at_least_one
next_chunk limit string_limit items = at_least_one (fit limit string_limit 0 0 items)

abbrev pub FetchFunc : Type 0 → Type 0 → Type 0
FetchFunc S T = S → List String → Result T × S

-- An error of the fetch function ends the loop, and a value goes on.
abbrev pub after_fetch : {S T R : Type 0} → Result T × S → (T → S → Result R × S) → Result R × S
after_fetch (ok v, s) go_on = go_on v s
after_fetch (err e, s) go_on = (err (wrapped "failed to fetch chunk" e), s)

module _ {S T : Type 0} (done : ℕ → Bool) (limit string_limit delay : ℤ)
    (fetch : FetchFunc S T) where
  -- `delay > 0 && !isFirst`, and the context is done. Chunk 0 is the first.
  abbrev pub cancelled : ℕ → Bool
  cancelled n = ltb_ℤ (pos 0) delay && not (n == 0) && done n

  -- The outer loop, before chunk n. It takes at least one item a round, so that the number of
  -- items is enough fuel (Chunks/Plan.antt).
  unfoldable pub chunk_loop : ℕ → ℕ → List String → List T → S → Result (List T) × S
  chunk_loop fuel n [] results s = (ok results, s)
  chunk_loop zero n (x ∷ xs) results s = (err (msg "out of fuel"), s)
  chunk_loop (suc fuel) n (x ∷ xs) results s =
      let (chunk, rest) = next_chunk limit string_limit (x ∷ xs) in
      let round =
        after_fetch (fetch s chunk)
          (λ (v : T) (s' : S). chunk_loop fuel (n + 1) rest (results ++ v ∷ []) s') in
      if cancelled n then (err (msg "context done"), s) else round

  unfoldable pub process_in_chunks : List String → S → Result (List T) × S
  process_in_chunks [] s = (ok [], s)
  process_in_chunks (x ∷ xs) s =
      if leb_ℤ limit (pos 0) then (ok [], s) else chunk_loop (length (x ∷ xs)) 0 (x ∷ xs) [] s

-- The loops over `chunkResults`.
unfoldable pub merge_all : {V : Type 0} → Map String V → List (Map String V) → Map String V
merge_all result [] = result
merge_all result (m ∷ ms) = merge_all (merge result m) ms

abbrev pub map_result : {A B S : Type 0} → (A → B) → Result A × S → Result B × S
map_result f (ok a, s) = (ok (f a), s)
map_result f (err e, s) = (err e, s)

module _ {S V : Type 0} (done : ℕ → Bool) (limit string_limit delay : ℤ) where
  -- `ChunkMapFetcher`
  unfoldable pub chunk_map_fetcher :
      FetchFunc S (Map String V) → List String → S → Result (Map String V) × S
  chunk_map_fetcher fetch items s =
      map_result (merge_all []) (process_in_chunks done limit string_limit delay fetch items s)

  -- `ChunkArrayFetcher`
  unfoldable pub chunk_array_fetcher : FetchFunc S (List V) → List String → S → Result (List V) × S
  chunk_array_fetcher fetch items s =
      map_result flatten (process_in_chunks done limit string_limit delay fetch items s)
