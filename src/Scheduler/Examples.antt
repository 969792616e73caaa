-- ===== src/Scheduler/Examples.antt =====
-- Witnesses for the scheduler: it runs its task at once and at a tick, and is stopped.
use market_proxy.Prelude.{◌≡◌, ◌+◌, ◌≤◌, refl, true, false, List, [], ◌∷◌}
use market_proxy.Scheduler.{
  new_scheduler, Move, starts, stops, stop_ends, loops, task_begins, begin_task, step, run, start,
  stop, finish_stop, loop_turn, run_task_if_not_running,
}
use market_proxy.Scheduler.Safe.{IsOrderly, run-IsOrderly}
use market_proxy.Scheduler.Stopping.{at_most_one_task_after_stop}
use market_proxy.Scheduler.Returning.{stop_returns, stop_moves}

-- The second tick finds the first task at work.
abbrev ticking : List Move
ticking = starts true ∷ loops false ∷ loops true ∷ loops true ∷ []

abbrev stopped : List Move
stopped = starts true ∷ loops false ∷ stops ∷ loops false ∷ stop_ends ∷ []

stopped-running : (run stopped new_scheduler).running ≡ false
unfolding run step start stop finish_stop loop_turn run_task_if_not_running new_scheduler
stopped-running = refl

run-IsOrderly_example : IsOrderly (run ticking new_scheduler)
run-IsOrderly_example = run-IsOrderly ticking

at_most_one_task_after_stop_example :
    ((run (task_begins ∷ loops true ∷ []) (run stopped new_scheduler)).started
        + (run (task_begins ∷ loops true ∷ []) (run stopped new_scheduler)).waiting
      ≡ (run stopped new_scheduler).started + (run stopped new_scheduler).waiting)
    × ((run stopped new_scheduler).waiting ≤ 1)
at_most_one_task_after_stop_example =
    at_most_one_task_after_stop stopped (task_begins ∷ loops true ∷ []) stopped-running
      (tt, (tt, tt))

-- `Stop` has come back, and the task is called behind it.
late_task : (run (task_begins ∷ []) (run stopped new_scheduler)).started ≡ 1
unfolding run step start stop finish_stop loop_turn run_task_if_not_running new_scheduler begin_task
late_task = refl

stop_returns_example :
    (run
      (stop_moves (loops true ∷ []) (task_begins ∷ []) [] [])
      (run ticking new_scheduler)).running
    ≡ false
stop_returns_example =
    stop_returns ticking (loops true ∷ []) (task_begins ∷ []) [] [] (tt, tt) (tt, tt) tt tt
