-- ===== src/Common/Examples.antt =====
-- Runs of the code of coingecko_common on concrete inputs.
use market_proxy.Prelude.{
  ◌≡◌, refl, ◌↔◌, ◌⊎◌, inl, inr, arith, ℕ, zero, suc, ◌+◌, ◌/◌, ◌*◌, ◌≤◌, ◌<◌, String, Bool, true,
  false, Option, none, some, List, [], ◌∷◌, ◌==◌, string_eq, if◌then◌else◌, flatten, All, In,
  length, ap,
}
use market_proxy.Prelude.Int.{pos}
use market_proxy.Prelude.Errors.{Error, msg, ok}
use market_proxy.Common.Chunks.{
  FetchFunc, process_in_chunks, chunk_loop, next_chunk, chunk_array_fetcher,
}
use market_proxy.Common.Chunks.Plan.{IsChunk, IsGreedy}
use market_proxy.Common.Chunks.Fetch.{
  fetch_each, chunks, process_in_chunks-IsPartition, chunk_array_fetcher_lem,
}
use market_proxy.Common.Keys.{
  ApiKey, ApiKeyManager, Attempt, pro_key, get_keys_of_type, get_available_keys,
}
use market_proxy.Common.Keys.Backoff.{IsOffered, get_available_keys_iff}
use market_proxy.Common.Keys.Trying.{
  mark_all, Fails, FirstAnswer, NoAnswer, try_with_keys_cases, failed_key_rests,
}
use market_proxy.Common.Http.{
  default_retry_options, Response, Sent, failed, received, calculate_backoff_with_jitter,
  all_failed, execute_request,
}
use market_proxy.Common.Http.Backoff.{doubled, calculate_backoff_with_jitter_bounds}
use market_proxy.Common.Http.Judging.{IsTransient, sends, retries}
use market_proxy.Common.Http.Retries.{execute_request_succeeds, execute_request_exhausts}

abbrev some_ids : List String
some_ids = "bitcoin" ∷ "ethereum" ∷ "tether" ∷ "status" ∷ []

-- Answers every chunk with the chunk, and counts the calls.
abbrev echo : FetchFunc ℕ (List String)
echo n c = (ok c, n + 1)

abbrev never : ℕ → Bool
never n = false

three_chunks :
    process_in_chunks never (pos 2) (pos 13) (pos 1) echo some_ids 0
    ≡ (ok (("bitcoin" ∷ []) ∷ ("ethereum" ∷ []) ∷ ("tether" ∷ "status" ∷ []) ∷ []), 3)
unfolding process_in_chunks chunk_loop next_chunk
three_chunks = refl

process_in_chunks-IsPartition_example :
    (flatten (chunks never (pos 2) (pos 13) (pos 1) echo some_ids) ≡ some_ids)
    × All (IsChunk (pos 2) (pos 13)) (chunks never (pos 2) (pos 13) (pos 1) echo some_ids)
    × IsGreedy (pos 2) (pos 13) (chunks never (pos 2) (pos 13) (pos 1) echo some_ids)
    × (process_in_chunks never (pos 2) (pos 13) (pos 1) echo some_ids 0
        ≡ fetch_each never
            (pos 2)
            (pos 13)
            (pos 1)
            echo
            0
            (chunks never (pos 2) (pos 13) (pos 1) echo some_ids)
            []
            0)
process_in_chunks-IsPartition_example =
    process_in_chunks-IsPartition never (pos 2) (pos 13) (pos 1) echo some_ids 0 (omega arith)

never_done : (n : ℕ) → never n ≡ false
never_done n = refl

chunk_array_fetcher_lem_example :
    (chunk_array_fetcher never (pos 2) (pos 13) (pos 1) echo some_ids 0).0 ≡ ok some_ids
chunk_array_fetcher_lem_example =
    chunk_array_fetcher_lem never (pos 2) (pos 13) (pos 1) echo (λ c. c) never_done (λ s c. refl)
      refl (λ xs ys. refl) some_ids 0

abbrev two_keys : ApiKeyManager
two_keys = record {
  api_tokens = some (record { tokens = "p" ∷ "q" ∷ []; demo_tokens = "d" ∷ [] });
  last_failed = ("p", 100) ∷ [];
  backoff_time = 50;
}

abbrev key_p : ApiKey
key_p = record { key = "p"; key_type = pro_key }

abbrev key_q : ApiKey
key_q = record { key = "q"; key_type = pro_key }

get_available_keys_iff_example :
    In key_p (get_available_keys two_keys 120) ↔ IsOffered two_keys 120 key_p
get_available_keys_iff_example = get_available_keys_iff two_keys 120 key_p

-- The first key is refused, and the second answers.
abbrev second_answers : ApiKey → Attempt ℕ
second_answers k =
    if k.key == "q"
    then record { result = some 7; success = true; error = none }
    else record { result = none; success = false; error = some (msg "status 429") }

p_Fails : Fails second_answers key_p
p_Fails = record { not_success = refl; error = msg "status 429"; has_error = refl }

try_with_keys_cases_example :
    FirstAnswer second_answers 120 two_keys [] (key_p ∷ key_q ∷ [])
    ⊎ NoAnswer second_answers 120 two_keys [] (key_p ∷ key_q ∷ [])
try_with_keys_cases_example =
    try_with_keys_cases second_answers 120 two_keys [] (key_p ∷ key_q ∷ [])
      (inr p_Fails, (inl refl, tt))

failed_key_rests_example : ¬ In key_p (get_available_keys (mark_all 120 two_keys (key_p ∷ [])) 169)
unfolding get_keys_of_type
failed_key_rests_example =
    failed_key_rests 120 169 two_keys (key_p ∷ []) key_p (inl refl) (λ e. absurd cc)
      (λ e. absurd (let two : 2 ≡ 1 = ap length e.1 in omega (arith, two))) (omega arith)

abbrev half : ℕ → ℕ
half n = n / 2

half-< : (n : ℕ) → 0 < n → half n < n
half-< n h = omega arith

calculate_backoff_with_jitter_bounds_example :
    (d : ℕ) × (calculate_backoff_with_jitter half 1000 3 ≡ some (pos d))
    × (doubled 1000 2 ≤ d)
    × (2 * d < 3 * doubled 1000 2)
calculate_backoff_with_jitter_bounds_example =
    calculate_backoff_with_jitter_bounds half 1000 (omega arith) 2 half-< (omega arith)
      ((omega arith), (omega arith))

abbrev answer_of : ℕ → Response
answer_of code = record { status_code = code; body = ok "[]" }

-- Two answers that are worth a retry, and then the given one.
abbrev third_is : ℕ → ℕ → Sent
third_is code zero = received (answer_of 429)
third_is code (suc zero) = failed (msg "timeout")
third_is code (suc (suc n)) = received (answer_of code)

abbrev free : ℕ → Option Error
free n = none

abbrev jitter : ℕ → ℕ → ℕ
jitter n = half

IsRetried_before : (code j : ℕ) → j < 2 → (free j ≡ none) × IsTransient (third_is code j)
IsRetried_before code zero h = (refl, inl refl)
IsRetried_before code (suc zero) h = (refl, tt)
IsRetried_before code (suc (suc j)) h = absurd (omega arith)

execute_request_succeeds_example :
    ((execute_request default_retry_options true free (third_is 200) jitter).0
      ≡ some (ok (record { response = answer_of 200; response_body = "[]" })))
    × (sends (execute_request default_retry_options true free (third_is 200) jitter).1 ≡ 3)
    × (retries (execute_request default_retry_options true free (third_is 200) jitter).1 ≡ 2)
unfolding default_retry_options
execute_request_succeeds_example =
    execute_request_succeeds default_retry_options true free (third_is 200) jitter (omega arith)
      (omega arith) (λ k. half-<) ((omega arith), (omega arith)) 2 (answer_of 200) "[]"
      (omega arith) (IsRetried_before 200) refl refl refl refl

abbrev always_busy : ℕ → Sent
always_busy n = received (answer_of 503)

execute_request_exhausts_example :
    ((execute_request default_retry_options false free always_busy jitter).0 ≡ some all_failed)
    × (sends (execute_request default_retry_options false free always_busy jitter).1 ≡ 3)
unfolding default_retry_options
execute_request_exhausts_example =
    execute_request_exhausts default_retry_options false free always_busy jitter (omega arith)
      (omega arith) (λ k. half-<) ((omega arith), (omega arith))
      (λ j h. (refl, inr (inr (inr (inl refl)))))
