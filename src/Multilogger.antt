-- ===== src/Multilogger.antt =====
-- A log handler that submits from a thread of its own: `ThreadedSubmitter` of
-- src/mantle/multilogger/python/base/threaded_submitter.py. Its worker threads take items from the
-- queues that it makes; which of them takes an item is left open.
pub mod Ordered
use common_core.Base.{
  ℕ, zero, suc, ◌≡◌, Bool, true, false, ◌&&◌, Option, none, some, List, [], ◌∷◌, ◌++◌,
  if◌then◌else◌,
}
use common_core.RoundRobin.{Queue, empty_queue, put_nowait, put_roundrobin}

-- A queue of messages, with None for its end, and what was taken from it. `ending` tells that
-- `q.put(None)` waits for room.
pub record Line (M : Type 0) : Type 0 where
  pub taken : List (Option M)
  pub queue : Queue (Option M)
  pub ending : Bool

-- The submitter, with the queues that it no longer puts messages in
pub record Submitter (M : Type 0) : Type 0 where
  pub queue_size : ℕ
  pub queue : Option (Line M)
  pub writer_thread : Bool
  pub closed : List (Line M)

module _ {M : Type 0} where
  abbrev pub new_line : ℕ → Line M
  new_line n = record { taken = []; queue = empty_queue n; ending = false }

  -- `__init__(..., queue_size)`
  abbrev pub new_submitter : ℕ → Submitter M
  new_submitter n = record { queue_size = n; queue = none; writer_thread = false; closed = [] }

  abbrev pub to_list : Option (Line M) → List (Line M)
  to_list none = []
  to_list (some l) = l ∷ []

  -- `open_writer()`, where `alive` tells whether the writer thread that there is still runs
  unfoldable pub open_writer : Bool → Submitter M → Submitter M
  open_writer alive s = if s.writer_thread && alive then s else record s {
    queue = some (new_line s.queue_size);
    writer_thread = true;
    closed = s.closed ++ to_list s.queue;
  }

  -- `q.put(None)`, which goes on when there is room
  unfoldable pub put_end : Line M → Line M
  put_end l =
      if l.ending
      then (elim (put_nowait none l.queue) [
        | none ↦ l
        | some q ↦ record l { queue = q; ending = false }
      ])
      else l

  abbrev pub to_end : Option (Line M) → List (Line M)
  to_end none = []
  to_end (some l) = put_end (record l { ending = true }) ∷ []

  -- `close_writer()` without waiting for the thread
  unfoldable pub close_writer : Submitter M → Submitter M
  unfolding put_end
  close_writer s = record s {
    queue = none;
    writer_thread = false;
    closed = s.closed ++ to_end s.queue;
  }

  abbrev pub submit_to : Submitter M → Line M → Option (Queue (Option M)) → Option (Submitter M)
  submit_to s l none = none
  submit_to s l (some q) = some (record s { queue = some (record l { queue = q }) })

  -- `submit(message)`, none where `put_roundrobin` has not enough rounds
  unfoldable pub submit : M → Submitter M → Option (Submitter M)
  submit m s = elim s.queue [
    | none ↦ some s
    | some l ↦ submit_to s l (put_roundrobin (some m) l.queue)
  ]

  -- `q.get()` in a worker: the first item, where there is one
  abbrev pub moved : Line M → List (Option M) → Line M
  moved l [] = l
  moved l (x ∷ xs) = record l { taken = l.taken ++ x ∷ []; queue = record l.queue { items = xs } }

  unfoldable pub take : Line M → Line M
  take l = moved l l.queue.items

  -- A change of the line at a place
  unfoldable pub change : (Line M → Line M) → ℕ → List (Line M) → List (Line M)
  change f n [] = []
  change f zero (l ∷ ls) = f l ∷ ls
  change f (suc n) (l ∷ ls) = l ∷ change f n ls

  abbrev pub change_queue : (Line M → Line M) → Option (Line M) → Option (Line M)
  change_queue f none = none
  change_queue f (some l) = some (f l)

  -- What the caller and the worker threads do, one after the other: the messages that were submitted
  -- lead from the first state to the last.
  pub data Steps (s : Submitter M) : List M → Submitter M → Type 0 where
    none_yet : Steps s [] s
    by_open :
        {ms : List M} {t : Submitter M}
        → (alive : Bool) → Steps s ms t
        → Steps s ms (open_writer alive t)
    by_close : {ms : List M} {t : Submitter M} → Steps s ms t → Steps s ms (close_writer t)
    by_submit :
        {ms : List M} {t u : Submitter M}
        → (m : M) → Steps s ms t
        → submit m t ≡ some u
        → Steps s (ms ++ m ∷ []) u
    by_take :
        {ms : List M} {t : Submitter M}
        → (n : ℕ) → Steps s ms t
        → Steps s ms (record t { closed = change take n t.closed })
    by_take_now :
        {ms : List M} {t : Submitter M}
        → Steps s ms t
        → Steps s ms (record t { queue = change_queue take t.queue })
    by_end :
        {ms : List M} {t : Submitter M}
        → (n : ℕ) → Steps s ms t
        → Steps s ms (record t { closed = change put_end n t.closed })
