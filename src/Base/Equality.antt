-- ===== src/Base/Equality.antt =====
-- Types with a Boolean equality test that decides their equations.
use Prim.Native.Nat.{ℕ}
use Prim.Native.String.{String}
use mathlib.Core.Path.{◌≡◌, refl}
use mathlib.Core.Logic.{◌↔◌, ◌≢◌}
use mathlib.Core.Bool.{Bool, true, false}
use mathlib.Core.Option.{Option, none, some}
use native.Mathlib.Omega.{arith}
use text.Mathlib.Text.{◌==◌ as str_eq}
use text.Mathlib.TextEquality.{eq_iff}
use mathlib.Core.List.{List, [], ◌∷◌}
use common_core.Base.Tests.{nat_eq, nat_eq_iff, if◌then◌else◌}

pub record Eq {ℓ} (A : Type ℓ) : Type ℓ where
  pub beq : A → A → Bool
  pub beq_reflects : (a b : A) → (beq a b ≡ true) ↔ (a ≡ b)

instance abbrev pub eq_ℕ : Eq ℕ
eq_ℕ = record { beq = nat_eq; beq_reflects = nat_eq_iff }

instance abbrev pub eq_string : Eq String
eq_string = record { beq = str_eq; beq_reflects = eq_iff }

module _ {ℓ} {A : Type ℓ} ⦃e : Eq A⦄ where
  abbrev pub option_beq : Option A → Option A → Bool
  option_beq none none = true
  option_beq none (some b) = false
  option_beq (some a) none = false
  option_beq (some a) (some b) = e.beq a b

  pub option_beq_reflects : (a b : Option A) → (option_beq a b ≡ true) ↔ (a ≡ b)
  option_beq_reflects none none = (λ _. refl, λ _. refl)
  option_beq_reflects none (some b) = (λ h. cc, λ h. cc)
  option_beq_reflects (some a) none = (λ h. cc, λ h. cc)
  option_beq_reflects (some a) (some b) = ground (arith, e.beq_reflects a b)

  pub beq_refl : (a : A) → e.beq a a ≡ true
  beq_refl a = (e.beq_reflects a a).1 refl

  pub beq_ne : (a b : A) → a ≢ b → e.beq a b ≡ false
  beq_ne a b h = ground (arith, e.beq_reflects a b)

instance abbrev pub eq_option {ℓ} : {A : Type ℓ} ⦃e : Eq A⦄ → Eq (Option A)
eq_option = record { beq = option_beq; beq_reflects = option_beq_reflects }

module _ {ℓ} {A : Type ℓ} ⦃e : Eq A⦄ where
  abbrev pub list_beq : List A → List A → Bool
  list_beq [] [] = true
  list_beq [] (b ∷ bs) = false
  list_beq (a ∷ xs) [] = false
  list_beq (a ∷ xs) (b ∷ bs) = let rest = list_beq xs bs in if e.beq a b then rest else false

  pub list_beq_reflects : (xs ys : List A) → (list_beq xs ys ≡ true) ↔ (xs ≡ ys)
  list_beq_reflects [] [] = (λ _. refl, λ _. refl)
  list_beq_reflects [] (b ∷ bs) = (λ h. cc, λ h. cc)
  list_beq_reflects (a ∷ xs) [] = (λ h. cc, λ h. cc)
  list_beq_reflects (a ∷ xs) (b ∷ bs) = ground (arith, e.beq_reflects a b, list_beq_reflects xs bs)

instance abbrev pub eq_list {ℓ} : {A : Type ℓ} ⦃e : Eq A⦄ → Eq (List A)
eq_list = record { beq = list_beq; beq_reflects = list_beq_reflects }
