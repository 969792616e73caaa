-- ===== src/Common/Http/Judging.antt =====
-- How `ExecuteRequest` judges one answer, and what its trace counts.
use market_proxy.Prelude.{
  ℕ, suc, ◌+◌, String, ◌≡◌, ◌≢◌, refl, ◌⊎◌, inl, inr, false, List, [], ◌∷◌, ◌++◌, arith, Bool-cases,
  nat_eq,
}
use market_proxy.Prelude.Errors.{msg, ok, err}
use market_proxy.Common.Http.{
  Response, Sent, failed, received, Event, on_request, on_retry, slept, sent, is_retryable_error,
  process_response, again, return_, judge_sent,
}

-- The requests that went out, and the retries that the handler heard of.
abbrev pub sends : List Event → ℕ
sends [] = 0
sends (sent ∷ es) = suc (sends es)
sends (_ ∷ es) = sends es

abbrev pub retries : List Event → ℕ
retries [] = 0
retries (on_retry ∷ es) = suc (retries es)
retries (_ ∷ es) = retries es

pub sends-append : (xs ys : List Event) → sends (xs ++ ys) ≡ sends xs + sends ys
sends-append [] ys = omega arith
sends-append (sent ∷ xs) ys = omega (arith, sends-append xs ys)
sends-append (on_retry ∷ xs) ys = sends-append xs ys
sends-append (slept d ∷ xs) ys = sends-append xs ys
sends-append (on_request s ∷ xs) ys = sends-append xs ys

pub retries-append : (xs ys : List Event) → retries (xs ++ ys) ≡ retries xs + retries ys
retries-append [] ys = omega arith
retries-append (on_retry ∷ xs) ys = omega (arith, retries-append xs ys)
retries-append (sent ∷ xs) ys = retries-append xs ys
retries-append (slept d ∷ xs) ys = retries-append xs ys
retries-append (on_request s ∷ xs) ys = retries-append xs ys

-- An answer that another attempt may better: no response at all, or one of five statuses.
abbrev pub IsTransient : Sent → Type 0
IsTransient (failed e) = Unit
IsTransient (received r) =
    (r.status_code ≡ 429)
    ⊎ ((r.status_code ≡ 500)
        ⊎ ((r.status_code ≡ 502) ⊎ ((r.status_code ≡ 503) ⊎ (r.status_code ≡ 504))))

pub judge_sent-transient : (s : Sent) → IsTransient s → (judge_sent s).0 ≡ again
unfolding judge_sent process_response is_retryable_error
judge_sent-transient (failed e) h = refl
judge_sent-transient (received r) h = ground arith

pub judge_sent-body :
    (r : Response) (b : String)
    → r.status_code ≡ 200
    → r.body ≡ ok b
    → (judge_sent (received r)).0 ≡ return_ (ok (record { response = r; response_body = b }))
unfolding judge_sent process_response is_retryable_error
judge_sent-body r b h e = ground arith

not_retryable :
    (r : Response) → ¬ IsTransient (received r) → is_retryable_error r.status_code ≡ false
unfolding is_retryable_error
not_retryable r h = elim (Bool-cases (is_retryable_error r.status_code)) [
  | inr e ↦ e
  | inl e ↦ absurd (h (ground arith))
]

not_429 : (r : Response) → ¬ IsTransient (received r) → r.status_code ≢ 429
not_429 r h e = h (inl e)

pub judge_sent-permanent :
    (r : Response)
    → r.status_code ≢ 200
    → ¬ IsTransient (received r)
    → (judge_sent (received r)).0 ≡ return_ (err (msg "API request failed"))
unfolding judge_sent process_response
judge_sent-permanent r n h = ground (arith, not_retryable r h, not_429 r h)
