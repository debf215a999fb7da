-- ===== src/Base/Int.antt =====
-- Python's `int`: signed integers over the native numbers, under the library's names.
use Prim.Native.Nat.{ℕ, zero, suc, ◌+◌, ◌-◌, ◌*◌, ◌/◌}
use mathlib.Core.Path.{◌≡◌}
use mathlib.Core.Logic.{◌↔◌}
use mathlib.Core.Bool.{Bool, true, false}
use native.Mathlib.Omega.{arith}
use common_core.Base.Tests.{nat_eq, leb, if◌then◌else◌}
use common_core.Base.Equality.{Eq}

-- `negsuc n` is -(n + 1).
pub data ℤ : Type 0 where
  pos : ℕ → ℤ
  negsuc : ℕ → ℤ

abbrev pub int_eq : ℤ → ℤ → Bool
int_eq (pos a) (pos b) = nat_eq a b
int_eq (negsuc a) (negsuc b) = nat_eq a b
int_eq _ _ = false

pub int_eq_iff : (a b : ℤ) → (int_eq a b ≡ true) ↔ (a ≡ b)
int_eq_iff (pos a) b = ground arith
int_eq_iff (negsuc a) b = ground arith

instance abbrev pub eq_ℤ : Eq ℤ
eq_ℤ = record { beq = int_eq; beq_reflects = int_eq_iff }

-- n * factor
abbrev pub scale : ℤ → ℕ → ℤ
scale (pos a) m = pos (a * m)
scale (negsuc a) m = negsuc (suc a * m - 1)

-- -n, for a magnitude n
abbrev pub neg_of : ℕ → ℤ
neg_of zero = pos zero
neg_of (suc n) = negsuc n

-- a - b of natural numbers
abbrev pub minus : ℕ → ℕ → ℤ
minus a b = if leb b a then pos (a - b) else negsuc (b - a - 1)

abbrev pub plus : ℤ → ℤ → ℤ
plus (pos a) (pos b) = pos (a + b)
plus (pos a) (negsuc b) = minus a (b + 1)
plus (negsuc a) (pos b) = minus b (a + 1)
plus (negsuc a) (negsuc b) = negsuc (a + b + 1)

abbrev pub negated : ℤ → ℤ
negated (pos n) = neg_of n
negated (negsuc n) = pos (n + 1)

-- `int(...)` of a quotient
abbrev pub truncated : ℤ → ℕ → ℤ
truncated (pos n) d = pos (n / d)
truncated (negsuc n) d = neg_of ((n + 1) / d)
