-- ===== src/Scheduler/Retries.antt =====
-- The loop of `_runTask` of src/core/python/core/scheduler.py: repeats, and retries after failures.
-- What a caller is told that waits for the first call is left out.
use mathlib.Core.Path.{subst}
use common_core.Scheduler.Slots.{not_ltb}
use common_core.Base.{
  ℕ, zero, suc, ◌+◌, ◌-◌, ◌≤◌, ◌<◌, ◌≡◌, refl, sym, ap, ◌∙◌, inl, inr, Bool-cases, Bool, true,
  false, Option, none, some, List, [], ◌∷◌, length, ltb, ltb→lt, arith, if◌then◌else◌, ◌++◌,
}

-- What the loop keeps: the runs that are left, none without a limit, the failures in a row, and the
-- successful runs. A negative number of runs is like zero.
pub record Task : Type 0 where
  pub repeats : Option ℕ
  pub failures : ℕ
  pub count : ℕ

-- `(repeats == None) or (repeats > 0)`
unfoldable pub may_run : Option ℕ → Bool
may_run none = true
may_run (some n) = ltb 0 n

-- `if repeats: repeats -= 1`
abbrev pub one_less : Option ℕ → Option ℕ
one_less none = none
one_less (some n) = some (n - 1)

-- A call of the method, which succeeds or fails: the task afterwards, none for the `break`
unfoldable pub call_method : ℕ → Bool → Task → Option Task
call_method maxretries true t =
    some (record { repeats = one_less t.repeats; failures = 0; count = t.count + 1 })
call_method maxretries false t =
    if ltb maxretries (t.failures + 1)
    then none
    else some (record { repeats = one_less t.repeats; failures = t.failures + 1; count = t.count })

-- Where the loop is: it waits for the timer, it has done all runs, it stopped after failures, or it
-- found that the task is no longer listed.
pub data Ending : Type 0 where
  waiting completed given_up unscheduled : Ending

-- What one wake-up finds: `self._tasks` no longer holds this task under its handle, or it does, and
-- the method succeeds or fails.
pub data WakeUp : Type 0 where
  unlisted : WakeUp
  listed : Bool → WakeUp

after_call : Bool → Option (List Bool × Ending) → List Bool × Ending
after_call o none = (o ∷ [], given_up)
after_call o (some (calls, e)) = (o ∷ calls, e)

-- The loop, as it is woken up one time after the other: how the calls that were made turned out.
unfoldable pub run_task : ℕ → List WakeUp → Task → List Bool × Ending
unfolding may_run call_method after_call
run_task maxretries [] t = if may_run t.repeats then ([], waiting) else ([], completed)
run_task maxretries (unlisted ∷ wakes) t =
    if may_run t.repeats then ([], unscheduled) else ([], completed)
run_task maxretries (listed o ∷ wakes) t =
    if may_run t.repeats
    then after_call o (elim (call_method maxretries o t) [
      | none ↦ none
      | some u ↦ some (run_task maxretries wakes u)
    ])
    else ([], completed)

-- The failures in a row at the end of some calls, with those before them.
abbrev pub trailing : ℕ → List Bool → ℕ
trailing n [] = n
trailing n (true ∷ calls) = trailing 0 calls
trailing n (false ∷ calls) = trailing (n + 1) calls

-- The second list begins with the first.
abbrev pub Begins : List Bool → List Bool → Type 0
Begins calls outcomes = (rest : List Bool) × (outcomes ≡ calls ++ rest)

abbrev pub Within : Option ℕ → ℕ → Type 0
Within none k = Unit
Within (some n) k = k ≤ n

abbrev pub Below : Option ℕ → ℕ → Type 0
Below none k = Unit
Below (some n) k = k < n

-- The outcomes at the wake-ups before the first that found the task no longer listed, and whether
-- there was such a wake-up.
unfoldable pub until_unlisted : List WakeUp → List Bool × Bool
until_unlisted [] = ([], false)
until_unlisted (unlisted ∷ wakes) = ([], true)
until_unlisted (listed o ∷ wakes) = let rest = until_unlisted wakes in (o ∷ rest.0, rest.1)

-- How a run of the loop may end. The calls of each run are those of the first wake-ups at which the
-- task was listed.
abbrev pub Explains : ℕ → Task → List WakeUp → List Bool × Ending → Type 0
Explains maxretries t wakes (calls, waiting) =
    (until_unlisted wakes ≡ (calls, false)) × Below t.repeats (length calls)
Explains maxretries t wakes (calls, unscheduled) =
    (until_unlisted wakes ≡ (calls, true)) × Below t.repeats (length calls)
Explains maxretries t wakes (calls, completed) =
    Begins calls (until_unlisted wakes).0 × (t.repeats ≡ some (length calls))
Explains maxretries t wakes (calls, given_up) =
    Begins calls (until_unlisted wakes).0
    × (trailing t.failures calls ≡ maxretries + 1)
    × Within t.repeats (length calls)

done-limit : (r : Option ℕ) → may_run r ≡ false → r ≡ some 0
unfolding may_run
done-limit none h = cc
done-limit (some zero) h = refl
done-limit (some (suc n)) h = ground (arith, h)

ready-Below : (r : Option ℕ) → may_run r ≡ true → Below r 0
unfolding may_run
ready-Below none h = tt
ready-Below (some n) h = ltb→lt 0 n h

Below-one_less : (r : Option ℕ) (k : ℕ) → may_run r ≡ true → Below (one_less r) k → Below r (suc k)
unfolding may_run
Below-one_less none k h b = tt
Below-one_less (some n) k h b = omega (arith, b, ltb→lt 0 n h)

Within-one_less :
    (r : Option ℕ) (k : ℕ) → may_run r ≡ true → Within (one_less r) k → Within r (suc k)
unfolding may_run
Within-one_less none k h b = tt
Within-one_less (some n) k h b = omega (arith, b, ltb→lt 0 n h)

Within-first : (r : Option ℕ) → may_run r ≡ true → Within r 1
unfolding may_run
Within-first none h = tt
Within-first (some n) h = ltb→lt 0 n h

limit-one_less : (r : Option ℕ) (k : ℕ) → may_run r ≡ true → one_less r ≡ some k → r ≡ some (suc k)
unfolding may_run
limit-one_less none k h e = cc
limit-one_less (some n) k h e = ap some (suc_of n k (ltb→lt 0 n h) (some-injective e))
  where
    some-injective : {a b : ℕ} → some a ≡ some b → a ≡ b
    some-injective e = cc

    suc_of : (n k : ℕ) → 0 < n → n - 1 ≡ k → n ≡ suc k
    suc_of n k h e = omega (arith, h, e)

-- A call before the others, which leaves `u` of the task `t`.
earlier-Explains :
    (maxretries : ℕ) (o : Bool) (wakes : List WakeUp) (t u : Task) (r : List Bool × Ending)
    → may_run t.repeats ≡ true
    → u.repeats ≡ one_less t.repeats
    → ((calls : List Bool) → trailing t.failures (o ∷ calls) ≡ trailing u.failures calls)
    → Explains maxretries u wakes r
    → Explains maxretries t (listed o ∷ wakes) (after_call o (some r))
unfolding after_call until_unlisted
earlier-Explains maxretries o wakes t u (calls, waiting) h e f x = (
  ap (λ c. (o ∷ c.0, c.1)) x.0,
  Below-one_less t.repeats (length calls) h (subst (λ r. Below r (length calls)) e x.1),
)
earlier-Explains maxretries o wakes t u (calls, unscheduled) h e f x = (
  ap (λ c. (o ∷ c.0, c.1)) x.0,
  Below-one_less t.repeats (length calls) h (subst (λ r. Below r (length calls)) e x.1),
)
earlier-Explains maxretries o wakes t u (calls, completed) h e f (b, x) =
    ((b.0, ap (λ l. o ∷ l) b.1), limit-one_less t.repeats (length calls) h (sym e ∙ x))
earlier-Explains maxretries o wakes t u (calls, given_up) h e f (b, x, w) = (
  (b.0, ap (λ l. o ∷ l) b.1),
  f calls ∙ x,
  Within-one_less t.repeats (length calls) h (subst (λ r. Within r (length calls)) e w),
)

-- The loop of a task, whose failures in a row are within its retries, calls the method at the first
-- wake-ups at which the task is listed, in their order. It has done all runs only when there is a
-- limit and the method was called that often; it stops after failures only when the calls end in one
-- failure in a row more than there are retries, and within the limit; it stops as unlisted, less often
-- called than the limit, only at the first wake-up that finds the task no longer listed, and after a
-- call at each wake-up before; and else the task was listed at every wake-up, and the method was
-- called at each of them, and less often than the limit.
pub run_task-Explains :
    (maxretries : ℕ) (wakes : List WakeUp) (t : Task)
    → t.failures ≤ maxretries
    → Explains maxretries t wakes (run_task maxretries wakes t)
unfolding run_task call_method after_call until_unlisted
run_task-Explains maxretries [] t h = elim (Bool-cases (may_run t.repeats)) [
  | inl y ↦ rw y (refl, ready-Below t.repeats y)
  | inr n ↦ rw n ((_, refl), done-limit t.repeats n)
]
run_task-Explains maxretries (unlisted ∷ wakes) t h = elim (Bool-cases (may_run t.repeats)) [
  | inl y ↦ rw y (refl, ready-Below t.repeats y)
  | inr n ↦ rw n ((_, refl), done-limit t.repeats n)
]
run_task-Explains maxretries (listed true ∷ wakes) t h =
    let u : Task = record { repeats = one_less t.repeats; failures = 0; count = t.count + 1 } in
    elim (Bool-cases (may_run t.repeats)) [
      | inl y ↦ rw y (
          earlier-Explains maxretries true wakes t u _ y refl (λ calls. refl)
            (run_task-Explains maxretries wakes u (omega arith)))
      | inr n ↦ rw n ((_, refl), done-limit t.repeats n)
    ]
run_task-Explains maxretries (listed false ∷ wakes) t h =
    let again : Task = record {
      repeats = one_less t.repeats;
      failures = t.failures + 1;
      count = t.count;
    } in
    elim (Bool-cases (may_run t.repeats)) [
      | inl y ↦ elim (Bool-cases (ltb maxretries (t.failures + 1))) [
        | inl g ↦
            rw (y, g)
              (
                (_, refl),
                omega (arith, h, ltb→lt maxretries (t.failures + 1) g),
                Within-first t.repeats y,
              )
        | inr g ↦
            rw (y, g)
              (earlier-Explains maxretries false wakes t again _ y refl (λ calls. refl)
                (run_task-Explains maxretries wakes again (not_ltb maxretries (t.failures + 1) g)))
      ]
      | inr n ↦ rw n ((_, refl), done-limit t.repeats n)
    ]
