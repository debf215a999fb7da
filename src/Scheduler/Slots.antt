-- ===== src/Scheduler/Slots.antt =====
-- The slots at which a task runs.
use common_core.Base.{
  ℕ, suc, false, ◌+◌, ◌-◌, ◌*◌, ◌%◌, ◌/◌, ◌≤◌, ◌<◌, ◌≡◌, inl, inr, Bool-cases, ltb, ltb→lt, arith,
}
use native.Mathlib.Nat.{mod-lt, mod-add-div'}
use common_core.Scheduler.{next_slot}

pub not_ltb : (a b : ℕ) → ltb a b ≡ false → b ≤ a
not_ltb a b h = ground arith

-- For a positive frequency, the slot that a task is queued at after a run is not in the past, lies
-- a whole number of periods after the slot of that run, and, if that one is in the past, less than
-- a period ahead.
pub next_slot_on_grid :
    (count frequency slot : ℕ)
    → 0 < frequency
    → (count ≤ next_slot count frequency slot)
      × ((k : ℕ) × (next_slot count frequency slot ≡ slot + k * frequency))
      × (slot < count → next_slot count frequency slot < count + frequency)
unfolding next_slot
next_slot_on_grid count frequency slot h = elim (Bool-cases (ltb slot count)) [
  | inl t ↦ rw t (past (ltb→lt slot count t))
  | inr f ↦ rw f (ahead (not_ltb slot count f))
]
  where
    late : ℕ
    late = count - 1 - slot

    past :
        slot < count
        → (count ≤ count - 1 + frequency - late % frequency)
          × ((k : ℕ) × (count - 1 + frequency - late % frequency ≡ slot + k * frequency))
          × (slot < count → count - 1 + frequency - late % frequency < count + frequency)
    past l = (
      omega (arith, mod-lt late h),
      (suc (late / frequency), omega (arith, mod-lt late h, mod-add-div' late frequency)),
      λ _. omega (arith, mod-lt late h),
    )

    ahead :
        count ≤ slot
        → (count ≤ slot)
          × ((k : ℕ) × (slot ≡ slot + k * frequency))
          × (slot < count → slot < count + frequency)
    ahead l = (l, (0, omega arith), λ before. omega (arith, before))
