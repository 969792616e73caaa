-- ===== src/Events/Notified.antt =====
-- What `Emit` of events/subscription.go leaves in the channels, and `Cancel` twice.
use mathlib.Core.Path.{subst}
use market_proxy.Prelude.{
  ℕ, ◌≡◌, refl, ap, sym, ◌∙◌, inl, inr, Bool, true, false, List, [], ◌∷◌, nat_eq, ◌==◌,
  if◌then◌else◌, Bool-cases, All, All-map_with,
}
use market_proxy.Events.{
  Channel, SubscriptionManager, System, Outcome, goes_on, blocked, panics, put, put_subscription,
  is_subscriber, emit_each, emit, cancel, unsubscribe, with_manager, when_free,
}
use market_proxy.Events.Safe.{IsOpen}

-- The channel with a notification in it.
abbrev notified : Channel → Channel
notified c = record c { waiting = true }

abbrev notified_if : Bool → Channel → Channel
notified_if b c = if b then notified c else c

-- The heap behind a send to each channel of the list.
abbrev with_all : List ℕ → (ℕ → Channel) → ℕ → Channel
with_all subs channels ch = notified_if (is_subscriber ch subs) (channels ch)

twice : (b : Bool) (c : Channel) → notified_if b (notified c) ≡ notified c
twice true c = refl
twice false c = refl

send_one :
    (ch : ℕ) (rest : List ℕ) (channels : ℕ → Channel) (other : ℕ)
    → with_all rest (put ch (notified (channels ch)) channels) other
      ≡ with_all (ch ∷ rest) channels other
send_one ch rest channels other = elim (Bool-cases (ch == other)) [
  | inl e ↦
      rw (e, (nat_eq.same_iff ch other).0 e) (twice (is_subscriber other rest) (channels other))
  | inr e ↦ rw e refl
]

abbrev Left : List ℕ → SubscriptionManager → Outcome SubscriptionManager → Type 0
Left subs m o =
    (m' : SubscriptionManager) × (o ≡ goes_on m')
    × (m'.subscribers ≡ m.subscribers)
    × ((ch : ℕ) → m'.channels ch ≡ with_all subs m.channels ch)

emit_each_lem :
    (subs : List ℕ) (m : SubscriptionManager)
    → All (λ ch. (m.channels ch).closed ≡ false) subs
    → Left subs m (emit_each (λ ch. false) subs m)
unfolding emit_each
emit_each_lem [] m h = (m, refl, refl, λ ch. refl)
emit_each_lem (ch ∷ rest) m h =
    let sent = record m { channels = put ch (notified (m.channels ch)) m.channels } in
    let kept =
      All-map_with (λ x. (m.channels x).closed ≡ false) (λ x. (sent.channels x).closed ≡ false) rest
        (λ x o. elim (Bool-cases (ch == x)) [ inl e ↦ rw e h.0 | inr e ↦ rw e o ]) h.1 in
    let (m', e, subs, chans) = emit_each_lem rest sent kept in
    (
      m',
      ap
            (λ b. elim (if b then panics else goes_on sent) [
              | goes_on m'' ↦ emit_each (λ x. false) rest m''
              | blocked ↦ blocked
              | panics ↦ panics
            ])
            h.0
          ∙ e,
      subs,
      λ x. chans x ∙ send_one ch rest m.channels x,
    )

-- While its context lasts, `Emit` reaches the end of its loop, changes no subscription, and leaves
-- one notification waiting in the channel of each subscriber and no other channel changed.
pub emit_notifies :
    (m : SubscriptionManager)
    → IsOpen m
    → (m' : SubscriptionManager) × (emit (λ ch. false) m ≡ goes_on m')
      × (m'.subscribers ≡ m.subscribers)
      × ((ch : ℕ)
          → m'.channels ch ≡ (
              if is_subscriber ch m.subscribers
              then record (m.channels ch) { waiting = true }
              else m.channels ch))
unfolding emit
emit_notifies m h = emit_each_lem m.subscribers m h

waits :
    (es : List (List ℕ)) (o : Outcome SubscriptionManager) (s s' : System)
    → when_free es (with_manager s o) ≡ goes_on s'
    → s'.subscriptions ≡ s.subscriptions
waits [] (goes_on m) s s' e = cc
waits [] blocked s s' e = absurd cc
waits [] panics s s' e = absurd cc
waits (x ∷ es) o s s' e = absurd cc

cancelled_once :
    (ch : ℕ) (s s' : System) → cancel ch s ≡ goes_on s' → (s'.subscriptions ch).once ≡ true
unfolding cancel
cancelled_once ch s s' e =
    let u = s.subscriptions ch in
    let marked = record u { ch = ch; once = true; ctx_done = true } in
    let marked_system = record s { subscriptions = put_subscription marked s.subscriptions } in
    elim (Bool-cases u.once) [
      | inl q ↦
          (let same : s ≡ s' = (let e' : goes_on s ≡ goes_on s' = sym (rw q refl) ∙ e in cc) in
            subst (λ t. (t.subscriptions ch).once ≡ true) same q)
      | inr q ↦
          ap (λ f. (f ch).once)
            (waits s.emitting (unsubscribe ch s.manager) marked_system s' (sym (rw q refl) ∙ e))
          ∙ rw ((nat_eq.same_iff ch ch).1 refl) refl
    ]

-- `Cancel` may be called again: behind a call that returns, another one changes nothing.
pub cancel_twice : (ch : ℕ) (s s' : System) → cancel ch s ≡ goes_on s' → cancel ch s' ≡ goes_on s'
unfolding cancel
cancel_twice ch s s' e = rw (cancelled_once ch s s' e) refl
