-- ===== src/Scheduler.antt =====
-- `Scheduler` of src/core/python/core/scheduler.py: the alarms, the list of tasks, and the steps that
-- the timer thread, the task threads and their callers take under the mutex. Times are counts of
-- ticks: what `_tickCount` makes of a time is an argument.
pub mod Slots
pub mod Ahead
pub mod Steps
pub mod Alarms
pub mod Retries
use common_core.Base.{
  ℕ, zero, suc, ◌+◌, ◌-◌, ◌%◌, min, String, Bool, true, false, Option, none, some, List, [], ◌∷◌,
  ◌++◌, any, nat_eq, ltb, if◌then◌else◌, eq_ℕ, eq_string,
}
use common_core.Base.Dict.{Dict, get, put, remove}

-- Locks are numbered. A task is known by the lock that its thread waits for; `freed` are the locks
-- that are released and that no thread has acquired since.
pub record Scheduler : Type 0 where
  pub nextcount : ℕ
  pub locks : Dict ℕ (List ℕ)
  pub tasks : Dict String ℕ
  pub freed : List ℕ

-- The entry for INFINITY, which is always empty, is left out of `locks`.
abbrev pub idle : Scheduler
idle = record { nextcount = 0; locks = []; tasks = []; freed = [] }

unfoldable pub is_among : ℕ → List ℕ → Bool
unfolding any
is_among lock locks = any (nat_eq lock) locks

abbrev pub locks_of : Option (List ℕ) → List ℕ
locks_of none = []
locks_of (some l) = l

-- `lock.release()`, where a lock that is free already raises an error that is caught
unfoldable pub release : ℕ → List ℕ → List ℕ
unfolding is_among
release lock freed = if is_among lock freed then freed else lock ∷ freed

unfoldable pub release_each : List ℕ → List ℕ → List ℕ
release_each [] freed = freed
release_each (lock ∷ locks) freed = release_each locks (release lock freed)

-- `self._locks.setdefault(slot, []).append(lock)`
unfoldable pub add_lock : ℕ → ℕ → Scheduler → Scheduler
add_lock slot lock s = record s {
  locks = put slot (locks_of (get slot s.locks) ++ lock ∷ []) s.locks;
}

-- `tasklist.remove(lock)`, none for the ValueError
unfoldable pub remove_lock : ℕ → List ℕ → Option (List ℕ)
remove_lock lock [] = none
remove_lock lock (l ∷ tasklist) =
    let rest = remove_lock lock tasklist in
    if nat_eq l lock then some tasklist else elim rest [ none ↦ none | some r ↦ some (l ∷ r) ]

-- `_clearalarm(lock)`: the first list with the lock loses it.
unfoldable pub clear_alarm : ℕ → Dict ℕ (List ℕ) → Dict ℕ (List ℕ)
unfolding remove_lock
clear_alarm lock [] = []
clear_alarm lock ((slot, tasklist) ∷ slots) =
    let rest = clear_alarm lock slots in
    elim (remove_lock lock tasklist) [ some l ↦ (slot, l) ∷ slots | none ↦ (slot, tasklist) ∷ rest ]

-- `min(self._locks)`, none for INFINITY
unfoldable pub earliest : Dict ℕ (List ℕ) → Option ℕ
earliest [] = none
earliest ((slot, tasklist) ∷ slots) = elim (earliest slots) [
  | none ↦ some slot
  | some m ↦ some (min slot m)
]

-- `min(min(self._locks), maxticks)`
unfoldable pub next_count : ℕ → Dict ℕ (List ℕ) → ℕ
unfolding earliest
next_count maxticks locks = elim (earliest locks) [ none ↦ maxticks | some m ↦ min m maxticks ]

-- A round of `_timerloop`. `maxticks` is the tick count of what the clock says by then and
-- `_maxsleep`.
unfoldable pub tick : ℕ → Scheduler → Scheduler
unfolding next_count release_each
tick maxticks s =
    let waiting = remove s.nextcount s.locks in
    record s {
      freed = release_each (locks_of (get s.nextcount s.locks)) s.freed;
      locks = waiting;
      nextcount = next_count maxticks waiting;
    }

-- Whether a task with the same handle has been woken up and has not run since
unfoldable pub is_free : Option ℕ → List ℕ → Bool
unfolding is_among
is_free none freed = false
is_free (some lock) freed = is_among lock freed

abbrev pub wake_other : Option ℕ → List ℕ → List ℕ
wake_other none freed = freed
wake_other (some lock) freed = lock ∷ freed

-- The slot of the first run. Alignment, which the code computes in floating point, is an argument.
abbrev pub first_slot : Option (ℕ → ℕ) → ℕ → ℕ
first_slot none slot = slot
first_slot (some align) slot = align slot

-- The beginning of `_runTask`: a task with the same handle is replaced, and its thread is woken up.
-- Where its lock is free, releasing it raises an error that is not caught, and no alarm is set.
unfoldable pub register : String → ℕ → ℕ → Option (ℕ → ℕ) → Scheduler → Scheduler
unfolding add_lock is_free
register handle lock delaycount align s =
    let listed = record s { tasks = put handle lock s.tasks } in
    let woken = record listed { freed = wake_other (get handle s.tasks) s.freed } in
    if is_free (get handle s.tasks) s.freed
    then listed
    else add_lock (first_slot align (s.nextcount + delaycount)) lock woken

-- `remove(handle)`, up to the wait for the thread, and whether the task was found
abbrev pub removed_by : String → Option ℕ → Scheduler → Scheduler × Bool
removed_by handle none s = (s, false)
removed_by handle (some lock) s = (
  record s {
    tasks = remove handle s.tasks;
    locks = clear_alarm lock s.locks;
    freed = release lock s.freed;
  },
  true,
)

unfoldable pub remove_task : String → Scheduler → Scheduler × Bool
unfolding clear_alarm release
remove_task handle s = removed_by handle (get handle s.tasks) s

-- The slot of the next run: the next slot that is not in the past, in steps of the frequency.
unfoldable pub next_slot : ℕ → ℕ → ℕ → ℕ
next_slot nextcount frequency nextslot =
    if ltb nextslot nextcount
    then nextcount - 1 + frequency - (nextcount - 1 - nextslot) % frequency
    else nextslot

-- After a run: `self._locks.setdefault(nextslot, []).append(lock)`
unfoldable pub requeue : ℕ → ℕ → ℕ → Scheduler → Scheduler
unfolding add_lock next_slot
requeue lock frequency nextslot s = add_lock (next_slot s.nextcount frequency nextslot) lock s

-- The test after a thread was woken up, whether its task is still in the list
unfoldable pub is_scheduled : String → ℕ → Scheduler → Bool
is_scheduled handle lock s = elim (get handle s.tasks) [ none ↦ false | some l ↦ nat_eq l lock ]

-- The end of `_runTask`
unfoldable pub unschedule : String → ℕ → Scheduler → Scheduler
unfolding is_scheduled
unschedule handle lock s =
    if is_scheduled handle lock s then (record s { tasks = remove handle s.tasks }) else s

-- `lock.acquire()` in the thread of a task, which waits where the lock is not free
abbrev pub taken : Option (List ℕ) → Scheduler → Scheduler
taken none s = s
taken (some freed) s = record s { freed = freed }

unfoldable pub acquire : ℕ → Scheduler → Scheduler
unfolding remove_lock
acquire lock s = taken (remove_lock lock s.freed) s
