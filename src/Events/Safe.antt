-- ===== src/Events/Safe.antt =====
-- No interleaving of events/subscription.go sends on a closed channel or closes one twice.
use market_proxy.Prelude.{
  ℕ, zero, suc, ◌≡◌, refl, ap, sym, ◌∙◌, inl, inr, Bool, true, false, ◌&&◌, List, [], ◌∷◌, nat_eq,
  ◌==◌, Bool-cases, All, All-append, All-map_with, In, arith,
}
use mathlib.Core.Path.{subst}
use market_proxy.Events.{
  Channel, SubscriptionManager, System, Outcome, goes_on, blocked, panics, Watch, not_watched,
  watching, ended, made, put, put_subscription, subscribe, is_subscriber, removed, unsubscribe,
  send, cancel, watch_turn, with_manager, when_free, visit, keep, sent, with_emitting, Move,
  subscribes, unsubscribes, cancels, watches, ends_context, turns, begins_emit, visits, step, run,
  new_system, new_subscription_manager, handed_out,
}

-- Each subscriber is an open channel.
abbrev pub IsOpen : SubscriptionManager → Type 0
IsOpen m = All (λ ch. (m.channels ch).closed ≡ false) m.subscribers

abbrev IsKnown : SubscriptionManager → List ℕ → Type 0
IsKnown m left = All (λ ch. In ch m.subscribers) left

-- And a call of `Emit` has only subscribers left to visit.
abbrev pub IsSound : System → Type 0
IsSound s = IsOpen s.manager × All (IsKnown s.manager) s.emitting

-- An outcome that is no panic, with what is known of the state behind it.
abbrev pub Runs : {A : Type 0} → (A → Type 0) → Outcome A → Type 0
Runs P (goes_on a) = P a
Runs P blocked = Unit
Runs P panics = ⊥

IsKnown-self : (m : SubscriptionManager) → IsKnown m m.subscribers
IsKnown-self m = each m.subscribers
  where
    each : (xs : List ℕ) → All (λ ch. In ch xs) xs
    each [] = tt
    each (x ∷ xs) = (inl refl, All-map_with _ _ xs (λ ch i. inr i) (each xs))

-- A write that keeps the channel open keeps every subscriber open.
put-IsOpen :
    (ch : ℕ) (c : Channel) (channels : ℕ → Channel) (subscribers : List ℕ)
    → c.closed ≡ false
    → All (λ other. (channels other).closed ≡ false) subscribers
    → All (λ other. (put ch c channels other).closed ≡ false) subscribers
put-IsOpen ch c channels subscribers e h = All-map_with _ _ subscribers one h
  where
    one : (other : ℕ) → (channels other).closed ≡ false → (put ch c channels other).closed ≡ false
    one other o = elim (Bool-cases (ch == other)) [ inl q ↦ rw q e | inr q ↦ rw q o ]

open_of :
    (m : SubscriptionManager) (ch : ℕ)
    → IsOpen m
    → In ch m.subscribers
    → (m.channels ch).closed ≡ false
open_of m ch h i = found m.subscribers h i
  where
    found :
        (xs : List ℕ)
        → All (λ x. (m.channels x).closed ≡ false) xs
        → In ch xs
        → (m.channels ch).closed ≡ false
    found [] a i = absurd i
    found (x ∷ xs) a (inl e) = ap (λ y. (m.channels y).closed) (sym e) ∙ a.0
    found (x ∷ xs) a (inr i) = found xs a.1 i

In-is_subscriber : (ch : ℕ) (xs : List ℕ) → is_subscriber ch xs ≡ true → In ch xs
In-is_subscriber ch [] h = absurd cc
In-is_subscriber ch (x ∷ xs) h = elim (Bool-cases (x == ch)) [
  | inl e ↦ inl ((nat_eq.same_iff x ch).0 e)
  | inr e ↦ inr (In-is_subscriber ch xs (ground arith))
]

-- Closing a channel leaves the others open.
removed-IsOpen :
    (ch : ℕ) (c : Channel) (channels : ℕ → Channel) (xs : List ℕ)
    → All (λ x. (channels x).closed ≡ false) xs
    → All (λ x. (put ch c channels x).closed ≡ false) (removed ch xs)
unfolding removed
removed-IsOpen ch c channels [] h = tt
removed-IsOpen ch c channels (x ∷ xs) h = elim (Bool-cases (ch == x)) [
  | inl e ↦ rw e (removed-IsOpen ch c channels xs h.1)
  | inr e ↦ rw e (rw e h.0, removed-IsOpen ch c channels xs h.1)
]

send-Runs :
    (m : SubscriptionManager) (ch : ℕ)
    → IsOpen m
    → In ch m.subscribers
    → Runs (λ m'. IsOpen m' × (m'.subscribers ≡ m.subscribers)) (send ch m)
unfolding send
send-Runs m ch h i = rw (open_of m ch h i) (
  put-IsOpen ch (record { waiting = true; closed = false }) m.channels m.subscribers refl h,
  refl,
)

unsubscribe-Runs : (m : SubscriptionManager) (ch : ℕ) → IsOpen m → Runs IsOpen (unsubscribe ch m)
unfolding unsubscribe
unsubscribe-Runs m ch h = elim (Bool-cases (is_subscriber ch m.subscribers)) [
  | inr e ↦ rw e h
  | inl e ↦
      rw (e, open_of m ch h (In-is_subscriber ch m.subscribers e))
        (removed-IsOpen ch (record (m.channels ch) { closed = true }) m.channels m.subscribers h)
]

visit-Runs :
    (quits : Bool) (n : ℕ) (es : List (List ℕ)) (m : SubscriptionManager)
    → IsOpen m
    → All (IsKnown m) es
    → Runs
        (λ r. IsOpen r.1 × (r.1.subscribers ≡ m.subscribers) × All (IsKnown m) r.0)
        (visit quits n es m)
unfolding visit
visit-Runs quits n [] m h k = tt
visit-Runs quits zero ([] ∷ es) m h k = (h, refl, k.1)
visit-Runs true zero ((ch ∷ left) ∷ es) m h k = (h, refl, k.1)
visit-Runs false zero ((ch ∷ left) ∷ es) m h k = after (send ch m) (send-Runs m ch h k.0.0)
  where
    after :
        (o : Outcome SubscriptionManager)
        → Runs (λ m'. IsOpen m' × (m'.subscribers ≡ m.subscribers)) o
        → Runs
            (λ r. IsOpen r.1 × (r.1.subscribers ≡ m.subscribers) × All (IsKnown m) r.0)
            (sent left es o)
    after (goes_on m') r = (r.0, r.1, (k.0.1, k.1))
    after blocked r = tt
    after panics r = absurd r
visit-Runs quits (suc n) (e ∷ es) m h k = after (visit quits n es m) (visit-Runs quits n es m h k.1)
  where
    after :
        (o : Outcome (List (List ℕ) × SubscriptionManager))
        → Runs (λ r. IsOpen r.1 × (r.1.subscribers ≡ m.subscribers) × All (IsKnown m) r.0) o
        → Runs
            (λ r. IsOpen r.1 × (r.1.subscribers ≡ m.subscribers) × All (IsKnown m) r.0)
            (keep e o)
    after (goes_on r) p = (p.0, p.1, (k.0, p.2))
    after blocked p = tt
    after panics p = absurd p

-- A step under the lock, which no call of `Emit` holds.
locked-Runs :
    (s : System) (es : List (List ℕ)) (o : Outcome SubscriptionManager)
    → s.emitting ≡ es
    → Runs IsOpen o
    → Runs IsSound (when_free es (with_manager s o))
locked-Runs s [] (goes_on m) e r = (r, subst (λ es. All (IsKnown m) es) (sym e) tt)
locked-Runs s [] blocked e r = tt
locked-Runs s [] panics e r = absurd r
locked-Runs s (x ∷ es) o e r = tt

cancel-Runs : (ch : ℕ) (s : System) → IsSound s → Runs IsSound (cancel ch s)
unfolding cancel
cancel-Runs ch s h = elim (Bool-cases (s.subscriptions ch).once) [
  | inl e ↦ rw e h
  | inr e ↦ rw e (
      locked-Runs
        (record s {
          subscriptions =
              put_subscription
                (record (s.subscriptions ch) { ch = ch; once = true; ctx_done = true })
                s.subscriptions;
        })
        s.emitting (unsubscribe ch s.manager) refl (unsubscribe-Runs s.manager ch h.0))
]

watch_turn-Runs :
    (takes_done : Bool) (ch : ℕ) (s : System)
    → IsSound s
    → Runs IsSound (watch_turn takes_done ch s)
unfolding watch_turn
watch_turn-Runs takes_done ch s h =
    let u = s.subscriptions ch in
    let m = s.manager in
    elim (Bool-cases (u.ctx_done && takes_done)) [
      | inl e ↦ rw e (
          cancel-Runs ch
            (record s {
              subscriptions =
                  put_subscription (record u { ch = ch; watch = ended }) s.subscriptions;
            })
            h)
      | inr e ↦ rw e (elim (Bool-cases (m.channels ch).waiting) [
        | inl w ↦ rw w (drained, h.1)
        | inr w ↦
            rw w (elim (Bool-cases (m.channels ch).closed) [ inl c ↦ rw c h | inr c ↦ rw c tt ])
      ])
    ]
  where
    drained :
        All
          (λ other.
            (put ch
              (record (s.manager.channels ch) { waiting = false })
              s.manager.channels
              other).closed
            ≡ false)
          s.manager.subscribers
    drained =
        All-map_with _ _ s.manager.subscribers
          (λ other o. elim (Bool-cases (ch == other)) [
            | inl q ↦ rw (q, (nat_eq.same_iff ch other).0 q) o
            | inr q ↦ rw q o
          ])
          h.0

unchanged-Runs :
    (s : System) (o : Outcome (List (List ℕ) × SubscriptionManager))
    → Runs
        (λ r. IsOpen r.1 × (r.1.subscribers ≡ s.manager.subscribers) × All (IsKnown s.manager) r.0)
        o
    → Runs IsSound (with_emitting s o)
unchanged-Runs s (goes_on (es, m)) r =
    (r.0, subst (λ xs. All (λ left. All (λ ch. In ch xs) left) es) (sym r.1) r.2)
unchanged-Runs s blocked r = tt
unchanged-Runs s panics r = absurd r

subscribe-Runs :
    (s : System) (es : List (List ℕ))
    → s.emitting ≡ es
    → IsSound s
    → Runs IsSound (when_free es (goes_on (handed_out s (subscribe s.manager))))
unfolding subscribe
subscribe-Runs s [] e h =
    let m = s.manager in
    (
      All-append (λ ch. (put m.next made m.channels ch).closed ≡ false) m.subscribers (m.next ∷ [])
          (put-IsOpen m.next made m.channels m.subscribers refl h.0)
          (rw ((nat_eq.same_iff m.next m.next).1 refl) refl, tt),
      subst (λ es. All (IsKnown (subscribe m).0) es) (sym e) tt,
    )
subscribe-Runs s (e' ∷ es) e h = tt

-- Every step keeps the invariant and does not panic.
step-Runs : (move : Move) (s : System) → IsSound s → Runs IsSound (step move s)
unfolding step
step-Runs subscribes s h = subscribe-Runs s s.emitting refl h
step-Runs (unsubscribes ch) s h =
    locked-Runs s s.emitting (unsubscribe ch s.manager) refl (unsubscribe-Runs s.manager ch h.0)
step-Runs (cancels ch) s h = cancel-Runs ch s h
step-Runs (watches call_now ch) s h = h
step-Runs (ends_context ch) s h = h
step-Runs (turns takes_done ch) s h = turn (s.subscriptions ch).watch
  where
    turn :
        (w : Watch)
        → Runs IsSound (elim w [
          | not_watched ↦ blocked
          | watching ↦ watch_turn takes_done ch s
          | ended ↦ blocked
        ])
    turn not_watched = tt
    turn watching = watch_turn-Runs takes_done ch s h
    turn ended = tt
step-Runs begins_emit s h = (
  h.0,
  All-append (IsKnown s.manager) s.emitting (s.manager.subscribers ∷ []) h.1
      (IsKnown-self s.manager, tt),
)
step-Runs (visits quits n) s h =
    unchanged-Runs s (visit quits n s.emitting s.manager)
      (visit-Runs quits n s.emitting s.manager h.0 h.1)

abbrev Ends : List Move → System → Type 0
Ends moves s = (s' : System) × (run moves s ≡ goes_on s') × IsSound s'

run_from : (moves : List Move) (s : System) → IsSound s → Ends moves s
unfolding run
run_from [] s h = (s, refl, h)
run_from (move ∷ moves) s h = after (step move s) (step-Runs move s h) (run_from moves)
  where
    after :
        (o : Outcome System)
        → Runs IsSound o
        → ((s' : System) → IsSound s' → Ends moves s')
        → (s' : System) × (elim o [
          | goes_on s' ↦ run moves s'
          | blocked ↦ run moves s
          | panics ↦ panics
        ]
            ≡ goes_on s')
          × IsSound s'
    after (goes_on s') r next = next s' r
    after blocked r next = next s h
    after panics r next = absurd r

-- Whatever the order in which the goroutines move, nothing panics: every notification of a call of
-- `Emit` goes to an open channel and no channel is closed twice; and at every moment each subscriber
-- is an open channel, also those that a call of `Emit` under way has still to visit.
pub run-IsSound :
    (moves : List Move) → (s : System) × (run moves new_system ≡ goes_on s) × IsSound s
unfolding new_system new_subscription_manager
run-IsSound moves = run_from moves new_system (tt, tt)
