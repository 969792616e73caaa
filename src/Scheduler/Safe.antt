-- ===== src/Scheduler/Safe.antt =====
-- scheduler/scheduler.go: one task at a time.
use market_proxy.Prelude.{
  ℕ, zero, suc, ◌+◌, ◌≡◌, refl, sym, ◌∙◌, ◌⊎◌, inl, inr, Bool, true, false, Option, none, some,
  List, [], ◌∷◌, if-cases, not, arith,
}
use mathlib.Core.Path.{subst}
use market_proxy.Scheduler.{
  Loop, Scheduler, new_scheduler, run_task_if_not_running, begin_task, end_task, start, cancel_loop,
  stop, finish_stop, loop_turn, Move, starts, stops, stop_ends, loops, task_begins, task_ends,
  context_ends, step, moved, run,
}

-- The number of goroutines that are to run the task or run it is what the lock says.
abbrev pub tasks_of : Bool → ℕ
tasks_of true = 1
tasks_of false = 0

-- A loop is alive only while the scheduler runs, and cancelled while it is being stopped.
abbrev pub LoopFits : Bool → Bool → Option Loop → Type 0
LoopFits running stopping none = Unit
LoopFits running stopping (some l) = (running ≡ true) × ((stopping ≡ false) ⊎ (l.cancelled ≡ true))

abbrev pub IsOrderly : Scheduler → Type 0
IsOrderly s =
    (s.waiting + s.tasks ≡ tasks_of s.task_running)
    × ((s.stopping ≡ false) ⊎ (s.running ≡ true))
    × LoopFits s.running s.stopping s.loop

abbrev Keeps : Scheduler → Option Scheduler → Type 0
Keeps s o = IsOrderly (moved s o)

run_task-IsOrderly : (s : Scheduler) → IsOrderly s → IsOrderly (run_task_if_not_running s)
unfolding run_task_if_not_running
run_task-IsOrderly s h =
    if-cases IsOrderly s.task_running (λ e. h)
      (λ e. let free = rw e at h.0 in (omega (arith, free), h.1, h.2))

cancel-LoopFits :
    (running stopping : Bool) (l : Option Loop)
    → LoopFits running stopping l
    → LoopFits running true (cancel_loop l)
cancel-LoopFits running stopping none h = tt
cancel-LoopFits running stopping (some l) h = (h.0, inr refl)

context-LoopFits :
    (running stopping : Bool) (l : Option Loop)
    → LoopFits running stopping l
    → LoopFits running stopping (cancel_loop l)
context-LoopFits running stopping none h = tt
context-LoopFits running stopping (some l) h = (h.0, inr refl)

begin_task-IsOrderly :
    (n : ℕ) (s : Scheduler) → s.waiting ≡ n → IsOrderly s → IsOrderly (moved s (begin_task n s))
unfolding begin_task
begin_task-IsOrderly zero s e h = h
begin_task-IsOrderly (suc n) s e h = (omega (arith, e) ∙ h.0, h.1, h.2)

end_task-IsOrderly :
    (n : ℕ) (s : Scheduler) → s.tasks ≡ n → IsOrderly s → IsOrderly (moved s (end_task n s))
unfolding end_task
end_task-IsOrderly zero s e h = h
end_task-IsOrderly (suc n) s e h = (last s.task_running (omega (arith, e) ∙ h.0), h.1, h.2)
  where
    last : (b : Bool) → s.waiting + suc n ≡ tasks_of b → s.waiting + n ≡ 0
    last true q = omega arith
    last false q = absurd (omega arith)

finish_stop-IsOrderly :
    (l : Option Loop) (s : Scheduler)
    → s.loop ≡ l
    → IsOrderly s
    → IsOrderly (moved s (finish_stop l s))
unfolding finish_stop
finish_stop-IsOrderly (some l) s e h = h
finish_stop-IsOrderly none s e h =
    if-cases (Keeps s) s.stopping (λ q. (h.0, inl refl, subst (LoopFits false false) (sym e) tt))
      (λ q. h)

loop_turn-IsOrderly :
    (ticks : Bool) (l : Option Loop) (s : Scheduler)
    → s.loop ≡ l
    → IsOrderly s
    → IsOrderly (moved s (loop_turn ticks l s))
unfolding loop_turn
loop_turn-IsOrderly ticks none s e h = h
loop_turn-IsOrderly ticks (some l) s e h =
    if-cases (Keeps s) l.first_run
      (λ q.
        run_task-IsOrderly (record s { loop = some (record l { first_run = false }) })
          (h.0, h.1, subst (LoopFits s.running s.stopping) e h.2))
      (λ q.
        if-cases (Keeps s) ticks (λ t. run_task-IsOrderly s h)
          (λ t. if-cases (Keeps s) l.cancelled (λ c. (h.0, h.1, tt)) (λ c. h)))

negated : (b : Bool) → not b ≡ false → b ≡ true
negated true e = refl
negated false e = absurd cc

step-IsOrderly : (move : Move) (s : Scheduler) → IsOrderly s → IsOrderly (moved s (step move s))
unfolding step start stop
step-IsOrderly (starts first) s h =
    if-cases (Keeps s) s.stopping (λ e. h)
      (λ e. if-cases (Keeps s) s.running (λ r. h) (λ r. (h.0, inr refl, (refl, inl e))))
step-IsOrderly stops s h =
    if-cases (Keeps s) s.stopping (λ e. h)
      (λ e.
        if-cases (Keeps s) (not s.running) (λ r. h)
          (λ r. (h.0, inr (negated s.running r), cancel-LoopFits s.running s.stopping s.loop h.2)))
step-IsOrderly stop_ends s h = finish_stop-IsOrderly s.loop s refl h
step-IsOrderly (loops ticks) s h = loop_turn-IsOrderly ticks s.loop s refl h
step-IsOrderly task_begins s h = begin_task-IsOrderly s.waiting s refl h
step-IsOrderly task_ends s h = end_task-IsOrderly s.tasks s refl h
step-IsOrderly context_ends s h = (h.0, h.1, context-LoopFits s.running s.stopping s.loop h.2)

run_from : (moves : List Move) (s : Scheduler) → IsOrderly s → IsOrderly (run moves s)
unfolding run
run_from [] s h = h
run_from (move ∷ moves) s h = run_from moves (moved s (step move s)) (step-IsOrderly move s h)

-- Whatever the order of the moves: at most one goroutine is to run the task or runs it, and it is one
-- exactly while the lock of the task is held; and a loop is alive only while the scheduler runs.
pub run-IsOrderly : (moves : List Move) → IsOrderly (run moves new_scheduler)
unfolding new_scheduler
run-IsOrderly moves = run_from moves new_scheduler (refl, inl refl, tt)
