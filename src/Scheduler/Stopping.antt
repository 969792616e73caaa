-- ===== src/Scheduler/Stopping.antt =====
-- scheduler/scheduler.go: what `Stop` leaves behind.
use market_proxy.Prelude.{
  ℕ, zero, suc, ◌+◌, ◌≤◌, arith, ◌≡◌, refl, ap, ◌∙◌, inl, inr, Bool, true, false, not, Option, none,
  some, List, [], ◌∷◌, if-cases, All,
}
use market_proxy.Scheduler.{
  Loop, Scheduler, new_scheduler, begin_task, end_task, cancel_loop, stop, finish_stop, loop_turn,
  Move, starts, stops, stop_ends, loops, task_begins, task_ends, context_ends, step, moved, run,
}
use market_proxy.Scheduler.Safe.{tasks_of, IsOrderly, LoopFits, run-IsOrderly}

-- Stopped: no loop, and no `Stop` under way.
abbrev pub IsOff : Scheduler → Type 0
IsOff s = (s.running ≡ false) × (s.stopping ≡ false) × (s.loop ≡ none)

no_loop :
    (running stopping : Bool) (l : Option Loop)
    → running ≡ false
    → LoopFits running stopping l
    → l ≡ none
no_loop running stopping none e h = refl
no_loop running stopping (some l) e h = absurd cc

pub sound-IsOff : (s : Scheduler) → IsOrderly s → s.running ≡ false → IsOff s
sound-IsOff s h e =
    (e, elim h.1 [ inl q ↦ q | inr q ↦ absurd cc ], no_loop s.running s.stopping s.loop e h.2)

abbrev pub IsNoStart : Move → Type 0
IsNoStart (starts first) = ⊥
IsNoStart _ = Unit

-- Still off, with as many tasks begun or to begin.
abbrev pub StaysOff : Scheduler → Scheduler → Type 0
StaysOff s s' = IsOff s' × (s'.started + s'.waiting ≡ s.started + s.waiting)

pub both_ways : (b : Bool) → b ≡ true → b ≡ false → ⊥
both_ways b p q = cc

pub step-StaysOff :
    (move : Move) (s : Scheduler) → IsNoStart move → IsOff s → StaysOff s (moved s (step move s))
unfolding step stop finish_stop loop_turn begin_task end_task
step-StaysOff (starts first) s n h = absurd n
step-StaysOff stops s n h =
    if-cases (λ o. StaysOff s (moved s o)) s.stopping (λ e. absurd (both_ways s.stopping e h.1))
      (λ e.
        if-cases (λ o. StaysOff s (moved s o)) (not s.running) (λ r. (h, refl))
          (λ r. absurd (both_ways (not s.running) (ap not h.0) r)))
step-StaysOff stop_ends s n h = ended s.loop
  where
    ended : (l : Option Loop) → StaysOff s (moved s (finish_stop l s))
    ended none =
        if-cases (λ o. StaysOff s (moved s o)) s.stopping (λ e. absurd (both_ways s.stopping e h.1))
          (λ e. (h, refl))
    ended (some l) = (h, refl)
step-StaysOff (loops ticks) s n h = turned s.loop h.2
  where
    turned : (l : Option Loop) → l ≡ none → StaysOff s (moved s (loop_turn ticks l s))
    turned none e = (h, refl)
    turned (some l) e = absurd cc
step-StaysOff task_begins s n h = begun s.waiting refl
  where
    begun : (k : ℕ) → s.waiting ≡ k → StaysOff s (moved s (begin_task k s))
    begun zero e = (h, refl)
    begun (suc k) e = (h, omega (arith, e))
step-StaysOff task_ends s n h = ended s.tasks
  where
    ended : (k : ℕ) → StaysOff s (moved s (end_task k s))
    ended zero = (h, refl)
    ended (suc k) = (h, refl)
step-StaysOff context_ends s n h = ((h.0, h.1, ap cancel_loop h.2), refl)

pub run-StaysOff :
    (moves : List Move) (s : Scheduler) → All IsNoStart moves → IsOff s → StaysOff s (run moves s)
unfolding run
run-StaysOff [] s n h = (h, refl)
run-StaysOff (move ∷ moves) s n h =
    let first = step-StaysOff move s n.0 h in
    let rest = run-StaysOff moves (moved s (step move s)) n.1 first.0 in (rest.0, rest.1 ∙ first.1)

one_at_most : (b : Bool) (w k : ℕ) → w + k ≡ tasks_of b → w ≤ 1
one_at_most true w k e = omega arith
one_at_most false w k e = omega arith

-- When `Stop` has come back (and before the first `Start`), no goroutine for the task is created until
-- the next `Start`, whatever moves meanwhile: the task is called at most once more, by a goroutine
-- that was there already and had not come to the call, and not at all if there was none.
pub at_most_one_task_after_stop :
    (before after : List Move)
    → (run before new_scheduler).running ≡ false
    → All IsNoStart after
    → ((run after (run before new_scheduler)).started
          + (run after (run before new_scheduler)).waiting
        ≡ (run before new_scheduler).started + (run before new_scheduler).waiting)
      × ((run before new_scheduler).waiting ≤ 1)
at_most_one_task_after_stop before after e n =
    let s = run before new_scheduler in
    let h = run-IsOrderly before in
    (
      (run-StaysOff after s n (sound-IsOff s h e)).1,
      one_at_most s.task_running s.waiting s.tasks h.0,
    )
