-- ===== src/Tests/Scheduler.antt =====
-- The scheduler of src/core/python/core/scheduler.py with few tasks.
use common_core.Base.{
  none, ℕ, ◌+◌, ◌*◌, ◌≤◌, ◌<◌, ◌≡◌, refl, true, false, some, List, [], ◌∷◌, eq_ℕ, eq_string, arith,
}
use common_core.Base.Dict.{get, remove}
use common_core.Scheduler.{
  Scheduler, idle, is_among, tick, register, requeue, next_slot, release_each, next_count, earliest,
}
use common_core.Scheduler.Slots.{next_slot_on_grid}
use common_core.Scheduler.Ahead.{Ahead}
use common_core.Scheduler.Steps.{none_yet, then_one, ticked, registered, queued, Steps-Ahead}
use common_core.Scheduler.Alarms.{rounds, alarm-rounds}
use common_core.Scheduler.Retries.{
  Task, given_up, WakeUp, listed, unlisted, unscheduled, run_task, Explains, may_run, call_method,
  run_task-Explains,
}

-- Every 10 ticks since 5: at 27, the next run is at 35.
next_slot_run : next_slot 27 10 5 ≡ 35
unfolding next_slot
next_slot_run = refl

next_slot_on_grid_example :
    (27 ≤ next_slot 27 10 5)
    × ((k : ℕ) × (next_slot 27 10 5 ≡ 5 + k * 10))
    × (5 < 27 → next_slot 27 10 5 < 37)
next_slot_on_grid_example = next_slot_on_grid 27 10 5 (omega arith)

abbrev two_tasks : Scheduler
two_tasks = record {
  nextcount = 3;
  locks = (7, 1 ∷ []) ∷ (4, 2 ∷ []) ∷ [];
  tasks = ("poll", 1) ∷ ("beat", 2) ∷ [];
  freed = [];
}

two_tasks-Ahead : Ahead two_tasks
two_tasks-Ahead = (omega arith, (omega arith, tt))

tick_run : tick 100 two_tasks ≡ record two_tasks { nextcount = 4 }
unfolding tick next_count earliest release_each get remove
tick_run = refl

Steps-Ahead_example : Ahead (requeue 1 10 0 (tick 100 (register "poll" 1 0 none idle)))
Steps-Ahead_example =
    Steps-Ahead idle
      (then_one (then_one (then_one none_yet (registered "poll" 1 0)) (ticked 100))
        (queued 1 10 0 (omega arith)))
      tt

alarm-rounds_example : is_among 1 (rounds (100 ∷ 100 ∷ 101 ∷ 101 ∷ 102 ∷ []) two_tasks).freed ≡ true
unfolding get is_among
alarm-rounds_example =
    alarm-rounds (100 ∷ 100 ∷ 101 ∷ 101 ∷ 102 ∷ []) two_tasks 7 1 two_tasks-Ahead refl refl
      (omega arith, (omega arith, (omega arith, (omega arith, (omega arith, tt))))) (omega arith)

abbrev thrice : Task
thrice = record { repeats = some 3; failures = 0; count = 0 }

-- One retry: two failures in a row end the task.
run_task_run :
    run_task 1 (listed true ∷ listed false ∷ listed false ∷ listed true ∷ []) thrice
    ≡ (true ∷ false ∷ false ∷ [], given_up)
unfolding run_task may_run call_method
run_task_run = refl

abbrev removed_later : List WakeUp
removed_later = listed true ∷ unlisted ∷ listed true ∷ []

unlisted_run : run_task 1 removed_later thrice ≡ (true ∷ [], unscheduled)
unfolding run_task may_run call_method
unlisted_run = refl

run_task-Explains_example : Explains 1 thrice removed_later (run_task 1 removed_later thrice)
run_task-Explains_example = run_task-Explains 1 removed_later thrice (omega arith)
