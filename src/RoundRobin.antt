-- ===== src/RoundRobin.antt =====
-- The queue of src/core/python/core/roundrobin.py, whose `put_roundrobin` makes room by discarding the
-- oldest items. The queue itself is Python's `queue.Queue`; the mutex of `Queue` keeps other
-- threads from putting items meanwhile.
pub mod Newest
use common_core.Base.{
  ℕ, zero, suc, Bool, true, false, ◌&&◌, Option, none, some, List, [], ◌∷◌, ◌++◌, length, ltb, leb,
  if◌then◌else◌,
}

-- A size of zero is no limit.
pub record Queue (A : Type 0) : Type 0 where
  pub maxsize : ℕ
  pub items : List A

module _ {A : Type 0} where
  abbrev pub empty_queue : ℕ → Queue A
  empty_queue n = record { maxsize = n; items = [] }

  unfoldable pub is_full : Queue A → Bool
  is_full q = ltb 0 q.maxsize && leb q.maxsize (length q.items)

  -- `put_nowait(item)`, none for the exception Full
  unfoldable pub put_nowait : A → Queue A → Option (Queue A)
  unfolding is_full
  put_nowait item q = if is_full q then none else some (record q { items = q.items ++ item ∷ [] })

  abbrev pub tail : List A → List A
  tail [] = []
  tail (x ∷ xs) = xs

  -- `get_nowait()`, where the exception Empty is caught
  abbrev pub get_nowait : Queue A → Queue A
  get_nowait q = record q { items = tail q.items }

  -- The loop of `put_roundrobin(item)`, none when the fuel is used up
  unfoldable pub put_loop : ℕ → A → Queue A → Option (Queue A)
  unfolding put_nowait
  put_loop zero item q = none
  put_loop (suc fuel) item q =
      let rest = put_loop fuel item (get_nowait q) in
      elim (put_nowait item q) [ some p ↦ some p | none ↦ rest ]

  -- One round for each item that may have to go, and one for the new item
  unfoldable pub put_roundrobin : A → Queue A → Option (Queue A)
  unfolding put_loop
  put_roundrobin item q = put_loop (suc (length q.items)) item q

  unfoldable pub put_each : List A → Queue A → Option (Queue A)
  unfolding put_roundrobin
  put_each [] q = some q
  put_each (item ∷ items) q = elim (put_roundrobin item q) [
    | none ↦ none
    | some p ↦ put_each items p
  ]
