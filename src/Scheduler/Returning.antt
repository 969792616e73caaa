-- ===== src/Scheduler/Returning.antt =====
-- scheduler/scheduler.go: `Stop` comes to its end.
use market_proxy.Prelude.{
  ℕ, zero, suc, ◌≡◌, refl, sym, ◌⊎◌, inl, inr, Bool, true, false, not, Option, none, some, List, [],
  ◌∷◌, ◌++◌, if-cases, All,
}
use mathlib.Core.Path.{subst}
use market_proxy.Scheduler.{
  Loop, Scheduler, new_scheduler, run_task_if_not_running, begin_task, end_task, cancel_loop, stop,
  finish_stop, loop_turn, Move, starts, stops, stop_ends, loops, task_begins, task_ends,
  context_ends, step, moved, run,
}
use market_proxy.Scheduler.Safe.{IsOrderly, LoopFits, run-IsOrderly}
use market_proxy.Scheduler.Stopping.{
  IsOff, sound-IsOff, IsNoStart, both_ways, step-StaysOff, run-StaysOff,
}

abbrev FirstWithin : ℕ → Bool → Type 0
FirstWithin zero first_run = first_run ≡ false
FirstWithin (suc k) first_run = Unit

-- A cancelled loop that ends in `k` turns without a tick at the latest.
abbrev Within : ℕ → Option Loop → Type 0
Within k none = Unit
Within zero (some l) = ⊥
Within (suc k) (some l) = (l.cancelled ≡ true) × FirstWithin k l.first_run

abbrev IsEnding : ℕ → Scheduler → Type 0
IsEnding k s = IsOff s ⊎ ((s.stopping ≡ true) × Within k s.loop)

run_task-IsEnding : (k : ℕ) (s : Scheduler) → IsEnding k s → IsEnding k (run_task_if_not_running s)
unfolding run_task_if_not_running
run_task-IsEnding k s h = if-cases (IsEnding k) s.task_running (λ e. h) (λ e. h)

after_first : (k : ℕ) → FirstWithin k false
after_first zero = refl
after_first (suc k) = tt

first_done :
    (k : ℕ) (l : Loop) → Within k (some l) → Within k (some (record l { first_run = false }))
first_done zero l h = h
first_done (suc k) l h = (h.0, after_first k)

cancel-Within : (k : ℕ) (l : Option Loop) → Within k l → Within k (cancel_loop l)
cancel-Within k none h = tt
cancel-Within zero (some l) h = h
cancel-Within (suc k) (some l) h = (refl, h.1)

loop_turn-IsEnding :
    (k : ℕ) (ticks : Bool) (l : Option Loop) (s : Scheduler)
    → s.loop ≡ l
    → s.stopping ≡ true
    → Within k l
    → IsEnding k (moved s (loop_turn ticks l s))
unfolding loop_turn
loop_turn-IsEnding k ticks none s e q w = inr (q, subst (Within k) (sym e) w)
loop_turn-IsEnding k ticks (some l) s e q w =
    let still = inr (q, subst (Within k) (sym e) w) in
    if-cases (λ o. IsEnding k (moved s o)) l.first_run
      (λ f.
        run_task-IsEnding k (record s { loop = some (record l { first_run = false }) })
          (inr (q, first_done k l w)))
      (λ f.
        if-cases (λ o. IsEnding k (moved s o)) ticks (λ t. run_task-IsEnding k s still)
          (λ t. if-cases (λ o. IsEnding k (moved s o)) l.cancelled (λ c. inr (q, tt)) (λ c. still)))

finish_stop-IsEnding :
    (k : ℕ) (l : Option Loop) (s : Scheduler)
    → s.loop ≡ l
    → s.stopping ≡ true
    → Within k l
    → IsEnding k (moved s (finish_stop l s))
unfolding finish_stop
finish_stop-IsEnding k (some l) s e q w = inr (q, subst (Within k) (sym e) w)
finish_stop-IsEnding k none s e q w =
    if-cases (λ o. IsEnding k (moved s o)) s.stopping (λ t. inl (refl, refl, e))
      (λ t. absurd (both_ways s.stopping q t))

-- No move delays the end.
step-IsEnding :
    (k : ℕ) (move : Move) (s : Scheduler)
    → IsNoStart move
    → IsEnding k s
    → IsEnding k (moved s (step move s))
unfolding step stop begin_task end_task
step-IsEnding k move s n (inl off) = inl (step-StaysOff move s n off).0
step-IsEnding k move s n (inr (q, w)) = go move n
  where
    go : (move : Move) → IsNoStart move → IsEnding k (moved s (step move s))
    go (starts first) n = absurd n
    go stops n =
        if-cases (λ o. IsEnding k (moved s o)) s.stopping (λ e. inr (q, w))
          (λ e. absurd (both_ways s.stopping q e))
    go stop_ends n = finish_stop-IsEnding k s.loop s refl q w
    go (loops ticks) n = loop_turn-IsEnding k ticks s.loop s refl q w
    go task_begins n = begun s.waiting
      where
        begun : (j : ℕ) → IsEnding k (moved s (begin_task j s))
        begun zero = inr (q, w)
        begun (suc j) = inr (q, w)
    go task_ends n = ended s.tasks
      where
        ended : (j : ℕ) → IsEnding k (moved s (end_task j s))
        ended zero = inr (q, w)
        ended (suc j) = inr (q, w)
    go context_ends n = inr (q, cancel-Within k s.loop w)

run-IsEnding :
    (k : ℕ) (moves : List Move) (s : Scheduler)
    → All IsNoStart moves
    → IsEnding k s
    → IsEnding k (run moves s)
unfolding run
run-IsEnding k [] s n h = h
run-IsEnding k (move ∷ moves) s n h =
    run-IsEnding k moves (moved s (step move s)) n.1 (step-IsEnding k move s n.0 h)

-- A turn without a tick brings the end nearer.
turn_lowers :
    (k : ℕ) (l : Option Loop) (s : Scheduler)
    → s.loop ≡ l
    → s.stopping ≡ true
    → Within (suc k) l
    → IsEnding k (moved s (loop_turn false l s))
unfolding loop_turn
turn_lowers k none s e q w = inr (q, subst (Within k) (sym e) tt)
turn_lowers k (some l) s e q w =
    if-cases (λ o. IsEnding k (moved s o)) l.first_run
      (λ f.
        run_task-IsEnding k (record s { loop = some (record l { first_run = false }) })
          (inr (q, one_less k w.1 f)))
      (λ f.
        if-cases (λ o. IsEnding k (moved s o)) l.cancelled (λ c. inr (q, tt))
          (λ c. absurd (both_ways l.cancelled w.0 c)))
  where
    one_less :
        (k : ℕ)
        → FirstWithin k l.first_run
        → l.first_run ≡ true
        → Within k (some (record l { first_run = false }))
    one_less zero first f = absurd (both_ways l.first_run f first)
    one_less (suc k) first f = (w.0, after_first k)

turned : (k : ℕ) (s : Scheduler) → IsEnding (suc k) s → IsEnding k (moved s (step (loops false) s))
unfolding step
turned k s (inl off) = inl (step-StaysOff (loops false) s tt off).0
turned k s (inr (q, w)) = turn_lowers k s.loop s refl q w

last_step : (s : Scheduler) → IsEnding 0 s → IsOff (moved s (step stop_ends s))
unfolding step finish_stop
last_step s (inl off) = (step-StaysOff stop_ends s tt off).0
last_step s (inr (q, w)) = finished s.loop refl w
  where
    finished : (l : Option Loop) → s.loop ≡ l → Within 0 l → IsOff (moved s (finish_stop l s))
    finished (some l) e w = absurd w
    finished none e w =
        if-cases (λ o. IsOff (moved s o)) s.stopping (λ t. (refl, refl, e))
          (λ t. absurd (both_ways s.stopping q t))

cancelled-Within : (running : Bool) (l : Option Loop) → LoopFits running true l → Within 2 l
cancelled-Within running none h = tt
cancelled-Within running (some l) h = elim h.1 [ inl e ↦ absurd cc | inr c ↦ (c, tt) ]

cancel_two : (l : Option Loop) → Within 2 (cancel_loop l)
cancel_two none = tt
cancel_two (some l) = (refl, tt)

not_running : (b : Bool) → not b ≡ true → b ≡ false
not_running true e = absurd cc
not_running false e = refl

stopped : (s : Scheduler) → IsOrderly s → IsEnding 2 (moved s (step stops s))
unfolding step stop
stopped s h =
    if-cases (λ o. IsEnding 2 (moved s o)) s.stopping
      (λ e.
        inr (e, cancelled-Within s.running s.loop (subst (λ b. LoopFits s.running b s.loop) e h.2)))
      (λ e.
        if-cases (λ o. IsEnding 2 (moved s o)) (not s.running)
          (λ r. inl (sound-IsOff s h (not_running s.running r)))
          (λ r. inr (refl, cancel_two s.loop)))

run-append : (a b : List Move) (s : Scheduler) → run (a ++ b) s ≡ run b (run a s)
unfolding run
run-append [] b s = refl
run-append (move ∷ a) b s = run-append a b (moved s (step move s))

-- The moves of a `Stop` that comes back: somewhere behind its call there are two turns of the loop that
-- take no tick, and then its own last step.
abbrev pub stop_moves : List Move → List Move → List Move → List Move → List Move
stop_moves a b c d = stops ∷ (a ++ (loops false ∷ (b ++ (loops false ∷ (c ++ (stop_ends ∷ d))))))

-- `Stop` comes back from every state that can arise, and stays so until the next `Start`: whatever else
-- moves meanwhile, ticks and tasks included, two turns of the loop that take no tick are enough. It
-- waits for no task.
pub stop_returns :
    (before a b c d : List Move)
    → All IsNoStart a
    → All IsNoStart b
    → All IsNoStart c
    → All IsNoStart d
    → (run (stop_moves a b c d) (run before new_scheduler)).running ≡ false
unfolding run
stop_returns before a b c d na nb nc nd =
    let s0 = run before new_scheduler in
    let s1 = run a (moved s0 (step stops s0)) in
    let s2 = run b (moved s1 (step (loops false) s1)) in
    let s3 = run c (moved s2 (step (loops false) s2)) in
    let e1 = run-IsEnding 2 a (moved s0 (step stops s0)) na (stopped s0 (run-IsOrderly before)) in
    let e2 = run-IsEnding 1 b (moved s1 (step (loops false) s1)) nb (turned 1 s1 e1) in
    let e3 = run-IsEnding 0 c (moved s2 (step (loops false) s2)) nc (turned 0 s2 e2) in
    let off = run-StaysOff d (moved s3 (step stop_ends s3)) nd (last_step s3 e3) in
    rw
      (
        run-append a (loops false ∷ (b ++ (loops false ∷ (c ++ (stop_ends ∷ d)))))
            (moved s0 (step stops s0)),
        run-append b (loops false ∷ (c ++ (stop_ends ∷ d))) (moved s1 (step (loops false) s1)),
        run-append c (stop_ends ∷ d) (moved s2 (step (loops false) s2)),
      )
      off.0.0
