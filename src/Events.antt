-- ===== src/Events.antt =====
-- events/subscription.go: subscribers with a channel of capacity 1 each, and callbacks that watch it.
--
-- A channel is a number, and the heap says what each holds. What Go panics on is a result of its own.
-- The lock of the manager is modelled: any number of calls of `Emit` hold it for reading while they
-- visit their subscribers one by one, and `Subscribe` and `Unsubscribe` wait until there is none.
pub mod Safe
pub mod Notified
mod Examples
use market_proxy.Prelude.{
  ℕ, zero, suc, ◌+◌, Bool, true, false, ◌&&◌, not, List, [], ◌∷◌, ◌++◌, ◌==◌, nat_eq, if◌then◌else◌,
}

-- A `chan struct{}` of capacity 1.
pub record Channel : Type 0 where
  pub waiting : Bool
  pub closed : Bool

-- `make(chan struct{}, 1)`
abbrev pub made : Channel
made = record { waiting = false; closed = false }

-- `SubscriptionManager` and the heap of channels; `next` is the first that is not made yet.
pub record SubscriptionManager : Type 0 where
  pub next : ℕ
  pub channels : ℕ → Channel
  pub subscribers : List ℕ

-- What a call comes to: it goes on, it waits for a lock or a channel, or it panics.
pub data Outcome (A : Type 0) : Type 0 where
  goes_on : A → Outcome A
  blocked : Outcome A
  panics : Outcome A

unfoldable pub new_subscription_manager : SubscriptionManager
new_subscription_manager = record { next = 0; channels = λ ch. made; subscribers = [] }

abbrev pub put : ℕ → Channel → (ℕ → Channel) → ℕ → Channel
put ch c channels other = if ch == other then c else channels other

unfoldable pub subscribe : SubscriptionManager → SubscriptionManager × ℕ
subscribe m = (
  record m {
    next = m.next + 1;
    channels = put m.next made m.channels;
    subscribers = m.subscribers ++ m.next ∷ [];
  },
  m.next,
)

-- `close` of a channel that is closed panics.
abbrev pub close : ℕ → SubscriptionManager → Outcome SubscriptionManager
close ch m =
    if (m.channels ch).closed
    then panics
    else goes_on
        (record m { channels = put ch (record (m.channels ch) { closed = true }) m.channels })

abbrev pub is_subscriber : ℕ → List ℕ → Bool
is_subscriber ch [] = false
is_subscriber ch (other ∷ rest) =
    let found = is_subscriber ch rest in if other == ch then true else found

unfoldable pub removed : ℕ → List ℕ → List ℕ
removed ch [] = []
removed ch (other ∷ rest) = let kept = removed ch rest in if ch == other then kept else other ∷ kept

unfoldable pub unsubscribe : ℕ → SubscriptionManager → Outcome SubscriptionManager
unsubscribe ch m =
    if is_subscriber ch m.subscribers
    then close ch (record m { subscribers = removed ch m.subscribers })
    else goes_on m

-- The send of the `select` in `Emit`: it panics on a closed channel and skips a full one.
unfoldable pub send : ℕ → SubscriptionManager → Outcome SubscriptionManager
send ch m =
    if (m.channels ch).closed
    then panics
    else goes_on
        (record m { channels = put ch (record (m.channels ch) { waiting = true }) m.channels })

-- A `Subscription`: `once` says that `Cancel` has run, `watch` how far its goroutine is, `calls`
-- how often the callback was called.
pub data Watch : Type 0 where
  not_watched : Watch
  watching : Watch
  ended : Watch

pub record Subscription : Type 0 where
  pub ch : ℕ
  pub once : Bool
  pub watch : Watch
  pub ctx_done : Bool
  pub calls : ℕ

-- The program: the manager, the calls of `Emit` under way with the subscribers that each has still
-- to visit, and the subscriptions that were handed out, by their channels.
pub record System : Type 0 where
  pub manager : SubscriptionManager
  pub emitting : List (List ℕ)
  pub subscriptions : ℕ → Subscription

unfoldable pub new_subscription : ℕ → Subscription
new_subscription ch = record {
  ch = ch;
  once = false;
  watch = not_watched;
  ctx_done = false;
  calls = 0;
}

abbrev pub put_subscription : Subscription → (ℕ → Subscription) → ℕ → Subscription
put_subscription s subscriptions other = if s.ch == other then s else subscriptions other

abbrev pub with_manager : System → Outcome SubscriptionManager → Outcome System
with_manager s (goes_on m) = goes_on (record s { manager = m })
with_manager s blocked = blocked
with_manager s panics = panics

-- `mu.Lock()` waits for the readers.
abbrev pub when_free : List (List ℕ) → Outcome System → Outcome System
when_free [] o = o
when_free (e ∷ es) o = blocked

-- `Cancel`: once, the context of a watch is cancelled and the channel unsubscribed. A second call
-- does nothing.
unfoldable pub cancel : ℕ → System → Outcome System
unfolding unsubscribe
cancel ch s =
    let u = s.subscriptions ch in
    if u.once
    then goes_on s
    else when_free s.emitting (
        with_manager
          (record s {
            subscriptions =
                put_subscription (record u { ch = ch; once = true; ctx_done = true })
                  s.subscriptions;
          })
          (unsubscribe ch s.manager))

-- `Watch`: it may call the callback at once, and starts its goroutine.
unfoldable pub watch_from : Bool → Subscription → Subscription
watch_from call_now u = record u {
  watch = watching;
  calls = if call_now then u.calls + 1 else u.calls;
}

-- One turn of the goroutine's loop. Both cases of its `select` may be ready, and then Go picks one:
-- `takes_done` says which. A closed channel is always ready.
unfoldable pub watch_turn : Bool → ℕ → System → Outcome System
unfolding cancel
watch_turn takes_done ch s =
    let u = s.subscriptions ch in
    let c = s.manager.channels ch in
    if u.ctx_done && takes_done
    then cancel ch (record s {
      subscriptions = put_subscription (record u { ch = ch; watch = ended }) s.subscriptions;
    })
    else if c.waiting
    then goes_on (record s {
      manager = record s.manager {
        channels = put ch (record c { waiting = false }) s.manager.channels;
      };
      subscriptions = put_subscription (record u { ch = ch; calls = u.calls + 1 }) s.subscriptions;
    })
    else if c.closed
    then goes_on (record s {
      subscriptions = put_subscription (record u { ch = ch; calls = u.calls + 1 }) s.subscriptions;
    })
    else blocked

-- A call of `Emit` with nothing behind it: the loop of one `Emit` that no other step interrupts.
-- `quits` says at which subscribers the `select` takes the case of the ended context.
unfoldable pub emit_each : (ℕ → Bool) → List ℕ → SubscriptionManager → Outcome SubscriptionManager
unfolding send
emit_each quits [] m = goes_on m
emit_each quits (ch ∷ rest) m = if quits ch then goes_on m else elim (send ch m) [
  | goes_on m' ↦ emit_each quits rest m'
  | blocked ↦ blocked
  | panics ↦ panics
]

unfoldable pub emit : (ℕ → Bool) → SubscriptionManager → Outcome SubscriptionManager
unfolding emit_each
emit quits m = emit_each quits m.subscribers m

-- The steps of the goroutines: what any of them does next.
pub data Move : Type 0 where
  subscribes : Move
  unsubscribes : ℕ → Move
  cancels : ℕ → Move
  watches : Bool → ℕ → Move
  ends_context : ℕ → Move
  turns : Bool → ℕ → Move
  begins_emit : Move
  visits : Bool → ℕ → Move

abbrev pub keep :
    List ℕ
    → Outcome (List (List ℕ) × SubscriptionManager)
    → Outcome (List (List ℕ) × SubscriptionManager)
keep e (goes_on (es, m)) = goes_on (e ∷ es, m)
keep e blocked = blocked
keep e panics = panics

abbrev pub sent :
    List ℕ
    → List (List ℕ)
    → Outcome SubscriptionManager
    → Outcome (List (List ℕ) × SubscriptionManager)
sent left es (goes_on m) = goes_on (left ∷ es, m)
sent left es blocked = blocked
sent left es panics = panics

-- The next turn of one call of `Emit`, by its place among the calls: the context has ended, or the
-- notification is sent; behind the last subscriber the call gives the lock back.
unfoldable pub visit :
    Bool → ℕ → List (List ℕ) → SubscriptionManager → Outcome (List (List ℕ) × SubscriptionManager)
unfolding send
visit quits n [] m = blocked
visit quits zero ([] ∷ es) m = goes_on (es, m)
visit quits zero ((ch ∷ left) ∷ es) m = if quits then goes_on (es, m) else sent left es (send ch m)
visit quits (suc n) (e ∷ es) m = keep e (visit quits n es m)

abbrev pub with_emitting : System → Outcome (List (List ℕ) × SubscriptionManager) → Outcome System
with_emitting s (goes_on (es, m)) = goes_on (record s { manager = m; emitting = es })
with_emitting s blocked = blocked
with_emitting s panics = panics

abbrev pub handed_out : System → SubscriptionManager × ℕ → System
handed_out s (m, ch) = record s {
  manager = m;
  subscriptions = put_subscription (new_subscription ch) s.subscriptions;
}

unfoldable pub step : Move → System → Outcome System
unfolding cancel watch_turn visit subscribe unsubscribe
step subscribes s = when_free s.emitting (goes_on (handed_out s (subscribe s.manager)))
step (unsubscribes ch) s = when_free s.emitting (with_manager s (unsubscribe ch s.manager))
step (cancels ch) s = cancel ch s
step (watches call_now ch) s = goes_on (record s {
  subscriptions =
      put_subscription (record (watch_from call_now (s.subscriptions ch)) { ch = ch })
        s.subscriptions;
})
step (ends_context ch) s = goes_on (record s {
  subscriptions =
      put_subscription (record (s.subscriptions ch) { ch = ch; ctx_done = true }) s.subscriptions;
})
step (turns takes_done ch) s = elim (s.subscriptions ch).watch [
  | not_watched ↦ blocked
  | watching ↦ watch_turn takes_done ch s
  | ended ↦ blocked
]
step begins_emit s = goes_on (record s { emitting = s.emitting ++ s.manager.subscribers ∷ [] })
step (visits quits n) s = with_emitting s (visit quits n s.emitting s.manager)

-- A schedule: a step that has to wait is passed over.
unfoldable pub run : List Move → System → Outcome System
unfolding step
run [] s = goes_on s
run (move ∷ moves) s = elim (step move s) [
  | goes_on s' ↦ run moves s'
  | blocked ↦ run moves s
  | panics ↦ panics
]

unfoldable pub new_system : System
unfolding new_subscription_manager new_subscription
new_system = record {
  manager = new_subscription_manager;
  emitting = [];
  subscriptions = new_subscription;
}

-- An emission by a service, unless an earlier one has ended the program.
abbrev pub emitted : (ℕ → Bool) → Outcome SubscriptionManager → Outcome SubscriptionManager
emitted quits (goes_on m) = emit quits m
emitted quits o = o
