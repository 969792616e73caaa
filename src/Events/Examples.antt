-- ===== src/Events/Examples.antt =====
-- Witnesses for the events: two subscribers, a call of `Emit`, and a cancellation.
use market_proxy.Prelude.{ℕ, ◌≡◌, refl, true, false, List, [], ◌∷◌, nat_eq, if◌then◌else◌}
use market_proxy.Events.{
  SubscriptionManager, System, goes_on, made, is_subscriber, emit, Move, subscribes, watches,
  begins_emit, visits, cancels, turns, run, new_system,
}
use market_proxy.Events.Safe.{IsSound, run-IsSound}
use market_proxy.Events.Notified.{emit_notifies}

abbrev two_subscribers : SubscriptionManager
two_subscribers = record { next = 2; channels = λ ch. made; subscribers = 0 ∷ 1 ∷ [] }

-- A cancellation in the middle of a call of `Emit` has to wait.
abbrev some_moves : List Move
some_moves =
    subscribes
    ∷ subscribes
    ∷ watches true 0
    ∷ begins_emit
    ∷ visits false 0
    ∷ cancels 0
    ∷ visits false 0
    ∷ visits false 0
    ∷ turns true 0
    ∷ cancels 0
    ∷ cancels 1
    ∷ []

run-IsSound_example : (s : System) × (run some_moves new_system ≡ goes_on s) × IsSound s
run-IsSound_example = run-IsSound some_moves

emit_notifies_example :
    (m' : SubscriptionManager) × (emit (λ ch. false) two_subscribers ≡ goes_on m')
    × (m'.subscribers ≡ 0 ∷ 1 ∷ [])
    × ((ch : ℕ)
        → m'.channels ch ≡ (
            if is_subscriber ch (0 ∷ 1 ∷ [])
            then record { waiting = true; closed = false }
            else made))
emit_notifies_example = emit_notifies two_subscribers (refl, (refl, tt))
