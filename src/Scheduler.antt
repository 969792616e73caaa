-- ===== src/Scheduler.antt =====
-- scheduler/scheduler.go: a task that runs at intervals, never twice at once.
--
-- The goroutines are moved step by step. The ticker may tick at any time, and where several cases of
-- the `select` are ready any of them may be taken. A step that has to wait is `none`.
pub mod Safe
pub mod Stopping
pub mod Returning
mod Examples
use market_proxy.Prelude.{
  ℕ, zero, suc, Bool, true, false, ◌&&◌, not, Option, none, some, List, [], ◌∷◌, if◌then◌else◌,
}

-- The goroutine that `Start` creates: is the first run still to come, and is its context cancelled?
pub record Loop : Type 0 where
  pub first_run : Bool
  pub cancelled : Bool

-- `Scheduler`. `stopping` is a call of `Stop` that holds the lock and waits for the loop,
-- `task_running` is the lock of that name, `waiting` are the goroutines that are to call the
-- task and have not come to it, `tasks` those that run it, and `started` counts its calls.
pub record Scheduler : Type 0 where
  pub running : Bool
  pub stopping : Bool
  pub loop : Option Loop
  pub task_running : Bool
  pub waiting : ℕ
  pub tasks : ℕ
  pub started : ℕ

unfoldable pub new_scheduler : Scheduler
new_scheduler = record {
  running = false;
  stopping = false;
  loop = none;
  task_running = false;
  waiting = 0;
  tasks = 0;
  started = 0;
}

-- The task is called later, by the goroutine that is created here.
unfoldable pub run_task_if_not_running : Scheduler → Scheduler
run_task_if_not_running s =
    if s.task_running then s else record s { task_running = true; waiting = suc s.waiting }

-- The goroutine calls the task.
unfoldable pub begin_task : ℕ → Scheduler → Option Scheduler
begin_task zero s = none
begin_task (suc others) s =
    some (record s { waiting = others; tasks = suc s.tasks; started = suc s.started })

-- The end of the goroutine of the task.
unfoldable pub end_task : ℕ → Scheduler → Option Scheduler
end_task zero s = none
end_task (suc others) s = some (record s { tasks = others; task_running = false })

unfoldable pub start : Bool → Scheduler → Option Scheduler
start first_run_immediately s =
    if s.stopping
    then none
    else if s.running
    then some s
    else some (record s {
      running = true;
      loop = some (record { first_run = first_run_immediately; cancelled = false });
    })

abbrev pub cancel_loop : Option Loop → Option Loop
cancel_loop none = none
cancel_loop (some l) = some (record l { cancelled = true })

-- `Stop` up to `wg.Wait()`, and from there.
unfoldable pub stop : Scheduler → Option Scheduler
stop s =
    if s.stopping
    then none
    else if not s.running
    then some s
    else some (record s { stopping = true; loop = cancel_loop s.loop })

unfoldable pub finish_stop : Option Loop → Scheduler → Option Scheduler
finish_stop none s =
    if s.stopping then some (record s { stopping = false; running = false }) else none
finish_stop (some l) s = none

-- One turn of the loop; `ticks` says that the case of the ticker is taken.
unfoldable pub loop_turn : Bool → Option Loop → Scheduler → Option Scheduler
unfolding run_task_if_not_running
loop_turn ticks none s = none
loop_turn ticks (some l) s =
    if l.first_run
    then some (run_task_if_not_running (record s { loop = some (record l { first_run = false }) }))
    else if ticks
    then some (run_task_if_not_running s)
    else if l.cancelled
    then some (record s { loop = none })
    else none

unfoldable pub is_running : Scheduler → Option Bool
is_running s = if s.stopping then none else some s.running

-- What moves: a caller, the loop, the task, or whoever ends the context that `Start` was given.
pub data Move : Type 0 where
  starts : Bool → Move
  stops : Move
  stop_ends : Move
  loops : Bool → Move
  task_begins : Move
  task_ends : Move
  context_ends : Move

unfoldable pub step : Move → Scheduler → Option Scheduler
unfolding start stop finish_stop loop_turn begin_task end_task
step (starts first_run_immediately) s = start first_run_immediately s
step stops s = stop s
step stop_ends s = finish_stop s.loop s
step (loops ticks) s = loop_turn ticks s.loop s
step task_begins s = begin_task s.waiting s
step task_ends s = end_task s.tasks s
step context_ends s = some (record s { loop = cancel_loop s.loop })

abbrev pub moved : Scheduler → Option Scheduler → Scheduler
moved s none = s
moved s (some s') = s'

-- A schedule: a step that has to wait is passed over.
unfoldable pub run : List Move → Scheduler → Scheduler
unfolding step
run [] s = s
run (move ∷ moves) s = run moves (moved s (step move s))
