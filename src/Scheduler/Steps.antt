-- ===== src/Scheduler/Steps.antt =====
-- The steps of the threads of a scheduler, and what they keep true.
use common_core.Base.{
  ◌≤◌, Option, ℕ, ◌+◌, ◌<◌, String, true, false, none, some, arith, if◌then◌else◌, eq_ℕ, eq_string,
}
use common_core.Base.Dict.{put, get, remove}
use common_core.Scheduler.{
  Scheduler, tick, taken, acquire, remove_lock, register, first_slot, is_free, wake_other, add_lock,
  remove_task, removed_by, requeue, unschedule, is_scheduled,
}
use common_core.Scheduler.Slots.{next_slot_on_grid}
use common_core.Scheduler.Ahead.{
  Ahead, put-AllAhead, add_lock-Ahead, clear_alarm-AllAhead, next_count-AllAhead,
}

pub tick-Ahead : (maxticks : ℕ) (s : Scheduler) → Ahead (tick maxticks s)
unfolding tick
tick-Ahead maxticks s = next_count-AllAhead maxticks (remove s.nextcount s.locks)

-- What the timer thread, a caller, or a task thread does while it holds the mutex. A task is queued
-- again with the frequency that `max(1, ...)` makes positive. The slot that alignment gives need not be
-- ahead in the code, so that registering an aligned task is a step only where it is.
pub data Step (s : Scheduler) : Scheduler → Type 0 where
  ticked : (maxticks : ℕ) → Step s (tick maxticks s)
  registered :
      (handle : String) (lock delaycount : ℕ) → Step s (register handle lock delaycount none s)
  registered_aligned :
      (handle : String) (lock delaycount : ℕ) (align : ℕ → ℕ)
      → s.nextcount ≤ align (s.nextcount + delaycount)
      → Step s (register handle lock delaycount (some align) s)
  removed : (handle : String) → Step s (remove_task handle s).0
  queued : (lock frequency slot : ℕ) → 0 < frequency → Step s (requeue lock frequency slot s)
  acquired : (lock : ℕ) → Step s (acquire lock s)
  ended : (handle : String) (lock : ℕ) → Step s (unschedule handle lock s)

pub data Steps (s : Scheduler) : Scheduler → Type 0 where
  none_yet : Steps s s
  then_one : {t u : Scheduler} → Steps s t → Step t u → Steps s u

register-Ahead :
    (handle : String) (lock delaycount : ℕ) (align : Option (ℕ → ℕ)) (s : Scheduler)
    → s.nextcount ≤ first_slot align (s.nextcount + delaycount)
    → Ahead s
    → Ahead (register handle lock delaycount align s)
unfolding register add_lock
register-Ahead handle lock delaycount align s h a =
    let listed = record s { tasks = put handle lock s.tasks } in
    let woken = record listed { freed = wake_other (get handle s.tasks) s.freed } in
    elim (is_free (get handle s.tasks) s.freed)
      as (λ b.
        Ahead (
          if b
          then listed
          else add_lock (first_slot align (s.nextcount + delaycount)) lock woken)) [
            | true ↦ a
            | false ↦
                put-AllAhead s.nextcount (first_slot align (s.nextcount + delaycount)) _ s.locks h a
          ]

Step-Ahead : (s : Scheduler) {t : Scheduler} → Step s t → Ahead s → Ahead t
unfolding acquire remove_task requeue unschedule add_lock
Step-Ahead s (ticked maxticks) a = tick-Ahead maxticks s
Step-Ahead s (registered handle lock delaycount) a =
    register-Ahead handle lock delaycount none s (omega arith) a
Step-Ahead s (registered_aligned handle lock delaycount align h) a =
    register-Ahead handle lock delaycount (some align) s h a
Step-Ahead s (removed handle) a =
    elim (get handle s.tasks) as (λ o. Ahead (removed_by handle o s).0) [
      | none ↦ a
      | some lock ↦ clear_alarm-AllAhead s.nextcount lock s.locks a
    ]
Step-Ahead s (queued lock frequency slot h) a =
    add_lock-Ahead _ lock s (next_slot_on_grid s.nextcount frequency slot h).0 a
Step-Ahead s (acquired lock) a = elim (remove_lock lock s.freed) as (λ o. Ahead (taken o s)) [
  | none ↦ a
  | some freed ↦ a
]
Step-Ahead s (ended handle lock) a =
    elim (is_scheduled handle lock s)
      as (λ b. Ahead (if b then (record s { tasks = remove handle s.tasks }) else s)) [
        | true ↦ a
        | false ↦ a
      ]

-- Whatever steps the threads take, an aligned task being registered only where the slot that its
-- alignment gives is not behind the count at which the timer thread looks for alarms next: if no slot
-- with an alarm is behind that count before, then none is afterwards.
pub Steps-Ahead : (s : Scheduler) {t : Scheduler} → Steps s t → Ahead s → Ahead t
Steps-Ahead s none_yet a = a
Steps-Ahead s (then_one steps step) a = Step-Ahead _ step (Steps-Ahead s steps a)
