-- ===== src/Scheduler/Alarms.antt =====
-- When the timer thread releases the locks that tasks wait for.
use common_core.Base.{
  ℕ, suc, ◌+◌, ◌≤◌, ◌<◌, ◌||◌, ◌≡◌, refl, sym, ap, ◌∙◌, inl, inr, Bool-cases, Bool, true, false,
  some, List, [], ◌∷◌, All, length, nat_eq, nat_eq_iff, arith, if◌then◌else◌, eq_ℕ, eq_string,
}
use mathlib.Core.Path.{subst}
use common_core.Base.Dict.{get, remove, get-remove}
use common_core.Scheduler.{Scheduler, is_among, locks_of, release, release_each, tick}
use common_core.Scheduler.Ahead.{Ahead, next_count-least, AllAhead-get, remove-AllAhead}
use common_core.Scheduler.Steps.{tick-Ahead}

is_among-release :
    (lock other : ℕ) (freed : List ℕ)
    → is_among lock (release other freed) ≡ nat_eq lock other || is_among lock freed
unfolding is_among release
is_among-release lock other freed = ground (arith, nat_eq_iff lock other)

-- The locks that are free after others were released.
is_among-release_each :
    (lock : ℕ) (locks freed : List ℕ)
    → is_among lock (release_each locks freed) ≡ is_among lock locks || is_among lock freed
unfolding release_each is_among
is_among-release_each lock [] freed = refl
is_among-release_each lock (l ∷ locks) freed =
    is_among-release_each lock locks (release l freed)
    ∙ ap (λ b. is_among lock locks || b) (is_among-release lock l freed)
    ∙ swap (nat_eq lock l) (is_among lock locks) (is_among lock freed)
  where
    swap : (a b c : Bool) → b || (a || c) ≡ (if a then true else b) || c
    swap a b c = ground arith

-- A round of the timer thread releases the locks in the slot that it has come to and no others.
tick-releases :
    (maxticks lock : ℕ) (s : Scheduler)
    → is_among lock (tick maxticks s).freed
      ≡ is_among lock (locks_of (get s.nextcount s.locks)) || is_among lock s.freed
unfolding tick
tick-releases maxticks lock s =
    is_among-release_each lock (locks_of (get s.nextcount s.locks)) s.freed

-- Rounds of the timer thread, with what the clock says in each.
abbrev pub rounds : List ℕ → Scheduler → Scheduler
rounds [] s = s
rounds (maxticks ∷ clocks) s = rounds clocks (tick maxticks s)

rounds-keep :
    (lock : ℕ) (clocks : List ℕ) (s : Scheduler)
    → is_among lock s.freed ≡ true
    → is_among lock (rounds clocks s).freed ≡ true
unfolding tick
rounds-keep lock [] s h = h
rounds-keep lock (c ∷ clocks) s h =
    rounds-keep lock clocks (tick c s) (tick-releases c lock s ∙ ground (arith, h))

later : (n t c : ℕ) → n ≤ t → nat_eq n t ≡ false → t ≤ c → suc n ≤ c
later n t c h d r = ground (arith, h, r, nat_eq_iff n t)

further : (n t m k : ℕ) → suc n ≤ m → t < suc k + n → t < k + m
further n t m k h w = omega (arith, h, w)

-- Where no slot is behind the count, a lock in the slot `t` is released by the timer thread within
-- as many rounds as there are ticks from the count up to `t`, and one more, if the clock says at
-- least `t` in each of them.
pub alarm-rounds :
    (clocks : List ℕ) (s : Scheduler) (t lock : ℕ) {l : List ℕ}
    → Ahead s
    → get t s.locks ≡ some l
    → is_among lock l ≡ true
    → All (λ c. t ≤ c) clocks
    → t < length clocks + s.nextcount
    → is_among lock (rounds clocks s).freed ≡ true
unfolding tick
alarm-rounds [] s t lock a h m r w =
    absurd (omega (arith, w, AllAhead-get s.nextcount t s.locks a h))
alarm-rounds (c ∷ clocks) s t lock {l} a h m r w = elim (Bool-cases (nat_eq s.nextcount t)) [
  | inl e ↦ rounds-keep lock clocks (tick c s) (
      tick-releases c lock s
      ∙ rw
          (subst (λ j. is_among lock (locks_of (get j s.locks)) ≡ true)
            (sym ((nat_eq_iff s.nextcount t).0 e)) (rw h m))
          refl)
  | inr d ↦
      alarm-rounds clocks (tick c s) t lock (tick-Ahead c s)
        (get-remove t s.nextcount s.locks ∙ rw d h) m r.1
        (further s.nextcount t _ (length clocks)
          (next_count-least (suc s.nextcount) c (remove s.nextcount s.locks)
            (later s.nextcount t c (AllAhead-get s.nextcount t s.locks a h) d r.0)
            (remove-AllAhead s.nextcount s.locks a))
          w)
]
