-- ===== src/Common/Http.antt =====
-- coingecko_common/http_client_with_retries.go: a request with retries, backoff, a rate limiter
-- and a handler that is told each status.
--
-- The network, the limiter and the random generator are parameters, by the number of the attempt.
-- What the client does that others can see is a trace of events. Times are in nanoseconds.
pub mod Backoff
pub mod Judging
pub mod Retries
use market_proxy.Prelude.{
  ℕ, zero, suc, ◌+◌, ◌-◌, ◌*◌, ◌/◌, ◌%◌, ◌^◌, String, Bool, true, false, ◌||◌, not, Option, none,
  some, List, [], ◌∷◌, ◌++◌, ltb, ◌==◌, nat_eq, if◌then◌else◌,
}
use market_proxy.Prelude.Int.{ℤ, pos, pos_part, ◌-ℤ◌}
use market_proxy.Prelude.Errors.{Error, msg, wrapped, exhausted, Result, ok, err}

pub record RetryOptions : Type 0 where
  pub max_retries : ℤ
  pub base_backoff : ℕ
  pub connection_timeout : ℕ
  pub request_timeout : ℕ

unfoldable pub default_retry_options : RetryOptions
default_retry_options = record {
  max_retries = pos 3;
  base_backoff = 1_000_000_000;
  connection_timeout = 10_000_000_000;
  request_timeout = 30_000_000_000;
}

-- `http.Response`, as far as it is read. The body is what `io.ReadAll` makes of it.
pub record Response : Type 0 where
  pub status_code : ℕ
  pub body : Result String

-- What `Client.Do` returns.
pub data Sent : Type 0 where
  failed : Error → Sent
  received : Response → Sent

-- `OnRequest` and `OnRetry` of the status handler, the sleep before a retry, and a request that
-- goes out.
pub data Event : Type 0 where
  on_request : String → Event
  on_retry : Event
  slept : ℤ → Event
  sent : Event

unfoldable pub is_retryable_error : ℕ → Bool
is_retryable_error code =
    code == 429 || (code == 500 || (code == 502 || (code == 503 || code == 504)))

-- The error texts also name the duration, the length of the URL and the body.
unfoldable pub process_response : Response → Result String
process_response resp =
    if resp.status_code == 200
    then elim resp.body [ ok b ↦ ok b | err e ↦ err (wrapped "error reading response" e) ]
    else if resp.status_code == 429
    then err (msg "rate limit exceeded")
    else err (msg "API request failed")

-- A float64 has 53 bits: the power of two that a number is rounded to a multiple of, and the
-- number that it is rounded to, the even one of two at the same distance.
unfoldable pub float64_unit : ℕ → ℕ → ℕ
float64_unit zero n = 1
float64_unit (suc fuel) n =
    let rest = float64_unit fuel (n / 2) in if ltb n (2 ^ 53) then 1 else 2 * rest

abbrev pub to_even : ℕ → ℕ → ℕ → ℕ
to_even unit quotient rest =
    if ltb (2 * rest) unit
    then quotient * unit
    else if ltb unit (2 * rest)
    then (quotient + 1) * unit
    else (quotient + quotient % 2) * unit

-- `float64(n)` of an int64 that is not negative; its 63 bits are enough fuel.
unfoldable pub float64_of : ℕ → ℕ
unfolding float64_unit
float64_of n =
    if ltb n (2 ^ 53)
    then n
    else to_even (float64_unit 63 n) (n / float64_unit 63 n) (n % float64_unit 63 n)

-- The sum of two int64, which are not negative.
unfoldable pub add_int64 : ℕ → ℕ → ℤ
add_int64 a b = if ltb (a + b) (2 ^ 63) then pos (a + b) else pos (a + b) -ℤ pos (2 ^ 64)

-- `calculateBackoffWithJitter`, for a base that is not negative. The shift is that of a 64-bit word.
-- The product of a float64 and a power of two below 2^64 is exact. `int63n n` is the answer of
-- `rand.Int63n`. `none` is its panic at 0, and a product of 2^63 and more: Go leaves open what that is
-- as an int64; on amd64 it is the least one, and `rand.Int63n` panics at its half.
unfoldable pub calculate_backoff_with_jitter : (ℕ → ℕ) → ℕ → ℕ → Option ℤ
unfolding float64_of add_int64
calculate_backoff_with_jitter int63n base_backoff attempt =
    let multiplier = 2 ^ (attempt - 1) % 2 ^ 64 in
    let backoff = float64_of base_backoff * multiplier in
    if attempt == 0
    then some (pos base_backoff)
    else if not (ltb backoff (2 ^ 63))
    then none
    else if backoff / 2 == 0
    then none
    else some (add_int64 backoff (int63n (backoff / 2)))

pub record Reply : Type 0 where
  pub response : Response
  pub response_body : String

-- How a round ends: with a return, or with the next round.
pub data Round : Type 0 where
  again : Round
  return_ : Result Reply → Round
  break_ : Round

-- The rest of the round: the limiter, the request and the reading of its answer.
unfoldable pub judge : Response → Result String → Round × String
judge resp (ok body) = (return_ (ok (record { response = resp; response_body = body })), "success")
judge resp (err e) =
    if is_retryable_error resp.status_code
    then (again, "rate_limited")
    else (return_ (err e), "error")

unfoldable pub judge_sent : Sent → Round × String
unfolding judge
judge_sent (failed e) = (again, "error")
judge_sent (received resp) = judge resp (process_response resp)

abbrev pub Outcome : Type 0
Outcome = Option (Result Reply) × List Event

abbrev pub all_failed : Result Reply
all_failed = err (exhausted "all attempts failed")

-- `continue`, `return` and `break`.
abbrev pub next_round : Round × List Event → (List Event → Outcome) → Outcome
next_round (again, trace) go_on = go_on trace
next_round (return_ r, trace) go_on = (some r, trace)
next_round (break_, trace) go_on = (some all_failed, trace)

abbrev pub unless_panic : Option (List Event) → List Event → (List Event → Outcome) → Outcome
unless_panic none trace go_on = (none, trace)
unless_panic (some trace') trace go_on = go_on trace'

-- `limiter_wait n`: the error of the limiter's `Wait` before attempt n; `none` also where there is
-- no limiter. `handled`: there is a status handler.
module _ (opts : RetryOptions) (handled : Bool) (limiter_wait : ℕ → Option Error) (send : ℕ → Sent)
    (int63n : ℕ → ℕ → ℕ) where
  abbrev tell : Event → List Event
  tell e = if handled then e ∷ [] else []

  -- The part of a round before the request: `none` is a panic.
  unfoldable pub before_attempt : ℕ → List Event → Option (List Event)
  before_attempt zero trace = some trace
  before_attempt (suc n) trace =
      elim (calculate_backoff_with_jitter (int63n (suc n)) opts.base_backoff (suc n)) [
        | none ↦ none
        | some d ↦ some (trace ++ (tell on_retry ++ slept d ∷ []))
      ]

  unfoldable pub attempt_once : ℕ → List Event → Round × List Event
  attempt_once n trace = elim (limiter_wait n) [
    | some e ↦ (break_, trace ++ tell (on_request "error"))
    | none ↦ ((judge_sent (send n)).0, trace ++ (sent ∷ tell (on_request (judge_sent (send n)).1)))
  ]

  -- The loop, with the rounds that are left. `none` is a panic.
  unfoldable pub execute_from : ℕ → ℕ → List Event → Option (Result Reply) × List Event
  execute_from zero attempt trace = (some all_failed, trace)
  execute_from (suc left) attempt trace =
      unless_panic (before_attempt attempt trace) trace λ trace'.
        next_round (attempt_once attempt trace') λ trace''. execute_from left (attempt + 1) trace''

  -- `ExecuteRequest`
  unfoldable pub execute_request : Option (Result Reply) × List Event
  execute_request = execute_from (pos_part opts.max_retries) 0 []
