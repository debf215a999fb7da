-- ===== src/Scheduler/Ahead.antt =====
-- Alarms that do not lie behind a count: `_locks` of src/core/python/core/scheduler.py.
use common_core.Base.{
  ℕ, suc, min, ◌≤◌, ◌≡◌, refl, sym, ◌∙◌, inl, inr, Bool-cases, true, false, Option, none, some,
  List, [], ◌∷◌, All, nat_eq, nat_eq_iff, arith, if◌then◌else◌, eq_ℕ, eq_string,
}
use mathlib.Core.Path.{subst}
use common_core.Base.Dict.{Dict, get, put, remove}
use common_core.Scheduler.{Scheduler, add_lock, remove_lock, clear_alarm, earliest, next_count}

-- Every slot lies ahead.
abbrev pub AllAhead : ℕ → Dict ℕ (List ℕ) → Type 0
AllAhead count slots = All (λ e. count ≤ e.0) slots

abbrev pub Ahead : Scheduler → Type 0
Ahead s = AllAhead s.nextcount s.locks

pub put-AllAhead :
    (count slot : ℕ) (l : List ℕ) (slots : Dict ℕ (List ℕ))
    → count ≤ slot
    → AllAhead count slots
    → AllAhead count (put slot l slots)
unfolding put
put-AllAhead count slot l [] h a = (h, tt)
put-AllAhead count slot l ((j, w) ∷ slots) h a =
    elim (nat_eq j slot)
      as (λ b. AllAhead count (if b then (j, l) ∷ slots else (j, w) ∷ put slot l slots)) [
        | true ↦ a
        | false ↦ (a.0, put-AllAhead count slot l slots h a.1)
      ]

pub add_lock-Ahead :
    (slot lock : ℕ) (s : Scheduler) → s.nextcount ≤ slot → Ahead s → Ahead (add_lock slot lock s)
unfolding add_lock
add_lock-Ahead slot lock s h a = put-AllAhead s.nextcount slot _ s.locks h a

pub clear_alarm-AllAhead :
    (count lock : ℕ) (slots : Dict ℕ (List ℕ))
    → AllAhead count slots
    → AllAhead count (clear_alarm lock slots)
unfolding clear_alarm
clear_alarm-AllAhead count lock [] a = tt
clear_alarm-AllAhead count lock ((slot, tasklist) ∷ slots) a =
    elim (remove_lock lock tasklist)
      as (λ o. AllAhead count (elim o [
        | some l ↦ (slot, l) ∷ slots
        | none ↦ (slot, tasklist) ∷ clear_alarm lock slots
      ])) [ some l ↦ a | none ↦ (a.0, clear_alarm-AllAhead count lock slots a.1) ]

pub weaken : (m n : ℕ) (slots : Dict ℕ (List ℕ)) → m ≤ n → AllAhead n slots → AllAhead m slots
weaken m n [] h a = tt
weaken m n ((slot, l) ∷ slots) h a = (omega (arith, a.0), weaken m n slots h a.1)

-- The earliest slot bounds every slot from below.
abbrev Bounds : Option ℕ → Dict ℕ (List ℕ) → Type 0
Bounds none slots = slots ≡ []
Bounds (some m) slots = AllAhead m slots

earliest-Bounds : (slots : Dict ℕ (List ℕ)) → Bounds (earliest slots) slots
unfolding earliest
earliest-Bounds [] = refl
earliest-Bounds ((slot, l) ∷ slots) = extend (earliest slots) (earliest-Bounds slots)
  where
    extend :
        (o : Option ℕ)
        → Bounds o slots
        → Bounds (elim o [ none ↦ some slot | some m ↦ some (min slot m) ]) ((slot, l) ∷ slots)
    extend none e = (omega arith, subst (λ d. AllAhead slot d) (sym e) tt)
    extend (some m) a = (omega arith, weaken (min slot m) m slots (omega arith) a)

pub next_count-AllAhead :
    (maxticks : ℕ) (slots : Dict ℕ (List ℕ)) → AllAhead (next_count maxticks slots) slots
unfolding next_count
next_count-AllAhead maxticks slots = by_earliest (earliest slots) (earliest-Bounds slots)
  where
    by_earliest :
        (o : Option ℕ)
        → Bounds o slots
        → AllAhead (elim o [ none ↦ maxticks | some m ↦ min m maxticks ]) slots
    by_earliest none e = subst (λ d. AllAhead maxticks d) (sym e) tt
    by_earliest (some m) a = weaken (min m maxticks) m slots (omega arith) a

-- A count that neither the clock nor any slot is before is not after the next count.
abbrev Above : ℕ → Option ℕ → Type 0
Above n none = Unit
Above n (some m) = n ≤ m

earliest-Above : (n : ℕ) (slots : Dict ℕ (List ℕ)) → AllAhead n slots → Above n (earliest slots)
unfolding earliest
earliest-Above n [] a = tt
earliest-Above n ((slot, l) ∷ slots) a = extend (earliest slots) (earliest-Above n slots a.1)
  where
    extend :
        (o : Option ℕ)
        → Above n o
        → Above n (elim o [ none ↦ some slot | some m ↦ some (min slot m) ])
    extend none h = a.0
    extend (some m) h = omega (arith, a.0)

pub next_count-least :
    (n maxticks : ℕ) (slots : Dict ℕ (List ℕ))
    → n ≤ maxticks
    → AllAhead n slots
    → n ≤ next_count maxticks slots
unfolding next_count
next_count-least n maxticks slots h a = by_earliest (earliest slots) (earliest-Above n slots a)
  where
    by_earliest :
        (o : Option ℕ) → Above n o → n ≤ elim o [ none ↦ maxticks | some m ↦ min m maxticks ]
    by_earliest none k = h
    by_earliest (some m) k = omega arith

pub AllAhead-get :
    (n t : ℕ) (slots : Dict ℕ (List ℕ)) {l : List ℕ}
    → AllAhead n slots
    → get t slots ≡ some l
    → n ≤ t
unfolding get
AllAhead-get n t [] a h = cc
AllAhead-get n t ((j, w) ∷ slots) a h = elim (Bool-cases (nat_eq j t)) [
  | inl e ↦ omega (arith, a.0, (nat_eq_iff j t).0 e)
  | inr d ↦ AllAhead-get n t slots a.1 (sym (rw d refl) ∙ h)
]

pub remove-AllAhead :
    (count : ℕ) (slots : Dict ℕ (List ℕ))
    → AllAhead count slots
    → AllAhead (suc count) (remove count slots)
unfolding remove
remove-AllAhead count [] a = tt
remove-AllAhead count ((j, w) ∷ slots) a =
    let rest = remove-AllAhead count slots a.1 in
    elim (Bool-cases (nat_eq j count)) [
      | inl e ↦ rw e rest
      | inr d ↦ rw d (ground (arith, a.0), rest)
    ]
