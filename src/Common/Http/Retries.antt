-- ===== src/Common/Http/Retries.antt =====
-- When `ExecuteRequest` tries again, when it stops, and what it returns.
use native.Mathlib.Decide.{ℕ_discrete}
use market_proxy.Prelude.{
  ℕ, zero, suc, ◌+◌, ◌-◌, ◌≤◌, ◌<◌, String, ◌≡◌, refl, ap, ◌∙◌, Bool, not, ◌&&◌, Option, none, some,
  List, [], ◌∷◌, ◌++◌, arith, if◌then◌else◌, ◌==◌, nat_eq,
}
use market_proxy.Prelude.Int.{ℤ, pos, pos_part}
use market_proxy.Prelude.Errors.{Error, Result, ok}
use market_proxy.Common.Http.Backoff.{
  IsShort, earlier-IsShort, calculate_backoff_with_jitter_bounds,
}
use market_proxy.Common.Http.{
  RetryOptions, Response, Sent, received, Event, on_request, on_retry, slept, sent, Reply,
  calculate_backoff_with_jitter, before_attempt, again, return_, judge_sent, attempt_once,
  all_failed, execute_from, execute_request, next_round, unless_panic,
}
use market_proxy.Common.Http.Judging.{
  sends, retries, sends-append, retries-append, IsTransient, judge_sent-transient, judge_sent-body,
}

module _ (opts : RetryOptions) (handled : Bool) (limiter_wait : ℕ → Option Error) (send : ℕ → Sent)
    (int63n : ℕ → ℕ → ℕ) (base : 2 ≤ opts.base_backoff) (few : pos_part opts.max_retries ≤ 64)
    (contract : (k n : ℕ) → 0 < n → int63n k n < n)
    (short : IsShort opts.base_backoff (pos_part opts.max_retries - 2)) where
  abbrev run : ℕ → ℕ → List Event → Option (Result Reply) × List Event
  run = execute_from opts handled limiter_wait send int63n

  abbrev told : ℤ → List Event
  told d = (if handled then on_retry ∷ [] else []) ++ slept d ∷ []

  before_attempt-suc :
      (n : ℕ) (trace : List Event) (d : ℤ)
      → calculate_backoff_with_jitter (int63n (suc n)) opts.base_backoff (suc n) ≡ some d
      → before_attempt opts handled limiter_wait send int63n (suc n) trace ≡ some (trace ++ told d)
  unfolding before_attempt
  before_attempt-suc n trace d e =
      ap (λ o. elim o [ none ↦ none | some x ↦ some (trace ++ told x) ]) e

  -- A round is entered without a panic, and has then sent nothing yet.
  entered :
      (n : ℕ) (trace : List Event)
      → n < pos_part opts.max_retries
      → (trace' : List Event) × (before_attempt opts handled limiter_wait send int63n n trace
          ≡ some trace')
        × (sends trace' ≡ sends trace)
        × (retries trace' ≡ retries trace + (if handled && not (n == 0) then 1 else 0))
  unfolding before_attempt
  entered zero trace h = (trace, refl, refl, ground arith)
  entered (suc n) trace h =
      let earlier =
        earlier-IsShort opts.base_backoff n (pos_part opts.max_retries - 2) (omega arith) short in
      let (d, e, _, _) =
        calculate_backoff_with_jitter_bounds (int63n (suc n)) opts.base_backoff base n
          (contract (suc n)) (omega arith) earlier in
      (
        trace ++ told (pos d),
        before_attempt-suc n trace (pos d) e,
        ground (arith, sends-append trace (told (pos d))),
        ground (arith, retries-append trace (told (pos d))),
      )

  -- Attempt n sends a request, and is then to be tried again.
  abbrev pub IsRetried : ℕ → Type 0
  IsRetried n = (limiter_wait n ≡ none) × IsTransient (send n)

  retried :
      (n : ℕ) (trace : List Event)
      → IsRetried n
      → (trace' : List Event) × (attempt_once opts handled limiter_wait send int63n n trace
          ≡ (again, trace'))
        × (sends trace' ≡ sends trace + 1)
        × (retries trace' ≡ retries trace)
  unfolding attempt_once
  retried n trace h =
      let more = sent ∷ (if handled then on_request (judge_sent (send n)).1 ∷ [] else []) in
      (
        trace ++ more,
        ground (arith, judge_sent-transient (send n) h.1),
        ground (arith, sends-append trace more),
        ground (arith, retries-append trace more),
      )

  one_more :
      (left n : ℕ) (trace : List Event)
      → n < pos_part opts.max_retries
      → IsRetried n
      → (trace' : List Event) × (run (suc left) n trace ≡ run left (n + 1) trace')
        × (sends trace' ≡ sends trace + 1)
        × (retries trace' ≡ retries trace + (if handled && not (n == 0) then 1 else 0))
  unfolding execute_from
  one_more left n trace h r =
      let (t, e, a, b) = entered n trace h in
      let (t', e', a', b') = retried n t r in
      (
        t',
        ap
              (λ o. unless_panic o trace (λ x.
                next_round (attempt_once opts handled limiter_wait send int63n n x)
                  (λ y. run left (n + 1) y)))
              e
            ∙ ap (λ p. next_round p (λ y. run left (n + 1) y)) e',
        a' ∙ ap (λ k. k + 1) a,
        b' ∙ b,
      )

  -- Attempt n sends a request and ends the loop with `r`.
  abbrev pub IsEnd : ℕ → Result Reply → Type 0
  IsEnd n r = (limiter_wait n ≡ none) × ((judge_sent (send n)).0 ≡ return_ r)

  last_one :
      (left n : ℕ) (trace : List Event) (r : Result Reply)
      → n < pos_part opts.max_retries
      → IsEnd n r
      → (trace' : List Event) × (run (suc left) n trace ≡ (some r, trace'))
        × (sends trace' ≡ sends trace + 1)
        × (retries trace' ≡ retries trace + (if handled && not (n == 0) then 1 else 0))
  unfolding execute_from attempt_once
  last_one left n trace r h x =
      let (t, e, a, b) = entered n trace h in
      let more = sent ∷ (if handled then on_request (judge_sent (send n)).1 ∷ [] else []) in
      (
        t ++ more,
        ap
              (λ o. unless_panic o trace (λ y.
                next_round (attempt_once opts handled limiter_wait send int63n n y)
                  (λ z. run left (n + 1) z)))
              e
            ∙ ground (arith, x.0, x.1),
        ground (arith, sends-append t more),
        ground (arith, retries-append t more),
      )

  runs_to :
      (left n stop : ℕ) (trace : List Event) (r : Result Reply)
      → n ≤ stop
      → stop < n + left
      → n + left ≤ pos_part opts.max_retries
      → ((j : ℕ) → n ≤ j → j < stop → IsRetried j)
      → IsEnd stop r
      → ((run left n trace).0 ≡ some r)
        × (sends (run left n trace).1 ≡ sends trace + (stop - n) + 1)
        × (retries (run left n trace).1 ≡ retries trace + (if handled then stop - (n - 1) else 0))
  runs_to zero n stop trace r le lt top h x = absurd (omega arith)
  runs_to (suc left) n stop trace r le lt top h x = elim (ℕ_discrete n stop) [
    | yes e ↦
        (let (t, p, a, b) = last_one left n trace r (omega arith) (rw e x) in
          (ap (λ o. o.0) p, rw p (omega (arith, a)), rw p (ground (arith, b))))
    | no ne ↦
        (let (t, p, a, b) = one_more left n trace (omega arith) (h n (omega arith) (omega arith)) in
          let (p', a', b') =
            runs_to left (n + 1) stop t r (omega arith) (omega arith) (omega arith)
              (λ j q. h j (omega arith)) x in
          (ap (λ o. o.0) p ∙ p', rw p (omega (arith, a, a')), rw p (ground (arith, b, b'))))
  ]

  runs_out :
      (left n : ℕ) (trace : List Event)
      → n + left ≤ pos_part opts.max_retries
      → ((j : ℕ) → n ≤ j → j < n + left → IsRetried j)
      → ((run left n trace).0 ≡ some all_failed) × (sends (run left n trace).1 ≡ sends trace + left)
  unfolding execute_from
  runs_out zero n trace top h = (refl, omega arith)
  runs_out (suc left) n trace top h =
      let (t, p, a, b) = one_more left n trace (omega arith) (h n (omega arith) (omega arith)) in
      let (p', a') =
        runs_out left (n + 1) t (omega arith) (λ j q k. h j (omega arith) (omega arith)) in
      (ap (λ o. o.0) p ∙ p', rw p (omega (arith, a, a')))

  abbrev request : Option (Result Reply) × List Event
  request = execute_request opts handled limiter_wait send int63n

  -- For at most 64 attempts, a base backoff of 2 nanoseconds or more and less than 2^53 with which
  -- every sleep is an int64, and a random generator that keeps its contract: if every attempt before
  -- number n fails in a way that may pass, and attempt n brings status 200 and a body, then that body
  -- is returned, after n + 1 requests and n retries.
  pub execute_request_succeeds :
      (n : ℕ) (resp : Response) (b : String)
      → n < pos_part opts.max_retries
      → ((j : ℕ) → j < n → IsRetried j)
      → limiter_wait n ≡ none
      → send n ≡ received resp
      → resp.status_code ≡ 200
      → resp.body ≡ ok b
      → (request.0 ≡ some (ok (record { response = resp; response_body = b })))
        × (sends request.1 ≡ n + 1)
        × (retries request.1 ≡ (if handled then n else 0))
  unfolding execute_request
  execute_request_succeeds n resp b lt h w e c body =
      let (p, a, q) =
        runs_to (pos_part opts.max_retries) 0 n []
          (ok (record { response = resp; response_body = b })) (omega arith) (omega arith)
          (omega arith) (λ j _ k. h j k) (w, rw e (judge_sent-body resp b c body)) in
      (p, omega (arith, a), ground (arith, q))

  -- For at most 64 attempts, a base backoff of 2 nanoseconds or more and less than 2^53 with which
  -- every sleep is an int64, and a random generator that keeps its contract: if every attempt fails
  -- in a way that may pass, exactly `max_retries` requests go out (none if it is negative), and the
  -- error says that all failed.
  pub execute_request_exhausts :
      ((j : ℕ) → j < pos_part opts.max_retries → IsRetried j)
      → (request.0 ≡ some all_failed) × (sends request.1 ≡ pos_part opts.max_retries)
  unfolding execute_request
  execute_request_exhausts h =
      let (p, a) =
        runs_out (pos_part opts.max_retries) 0 [] (omega arith) (λ j _ k. h j (omega arith)) in
      (p, omega (arith, a))
