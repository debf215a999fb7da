-- ===== src/Expander/Shorter.antt =====
-- The matches of an escape leave no more than there was.
use common_core.Base.{
  ℕ, suc, ◌+◌, ◌-◌, ◌*◌, ◌≤◌, inl, inr, Bool, true, false, Option, none, some, [], ◌∷◌, length,
  nat_eq, arith, Bool-cases, if◌then◌else◌,
}
use mathlib.Core.Option
use common_core.Base.Text.{Text, newline}
use common_core.Expander.Unescape.{
  match_escape, is_octal, is_hex, octal_last, octal_middle, hex_last, hex_pair, control, first_of,
}
use common_core.Expander.{last_of, last_line}

-- What a match leaves is no longer than the text
abbrev pub Shorter : ℕ → Option (ℕ × Text) → Type 0
Shorter k none = Unit
Shorter k (some r) = length r.1 ≤ k

octal_last-Shorter : (n : ℕ) (t : Text) → Shorter (length t) (octal_last n t)
octal_last-Shorter n [] = tt
octal_last-Shorter n (c ∷ cs) = elim (Bool-cases (is_octal c)) [
  | inl t ↦ rw t (omega arith)
  | inr f ↦ rw f tt
]

Shorter-more : {j k : ℕ} → j ≤ k → (o : Option (ℕ × Text)) → Shorter j o → Shorter k o
Shorter-more le none h = tt
Shorter-more le (some r) h = omega (arith, h)

octal_middle-Shorter : (n : ℕ) (t : Text) → Shorter (length t) (octal_middle n t)
octal_middle-Shorter n [] = tt
octal_middle-Shorter n (c ∷ cs) = elim (Bool-cases (is_octal c)) [
  | inl t ↦ rw t (
      Shorter-more (omega arith) (octal_last (n * 8 + (c - 48)) cs)
        (octal_last-Shorter (n * 8 + (c - 48)) cs))
  | inr f ↦ rw f tt
]

hex_last-Shorter : (n : ℕ) (t : Text) → Shorter (length t) (hex_last n t)
hex_last-Shorter n [] = tt
hex_last-Shorter n (c ∷ cs) = elim (Bool-cases (is_hex c)) [
  | inl t ↦ rw t (omega arith)
  | inr f ↦ rw f tt
]

hex_pair-Shorter : (t : Text) → Shorter (length t) (hex_pair t)
hex_pair-Shorter [] = tt
hex_pair-Shorter (c ∷ cs) = elim (Bool-cases (is_hex c)) [
  | inl t ↦ rw t (Shorter-more (omega arith) _ (hex_last-Shorter _ cs))
  | inr f ↦ rw f tt
]

Shorter-first :
    (k : ℕ) (o p : Option (ℕ × Text)) → Shorter k o → Shorter k p → Shorter k (first_of o p)
Shorter-first k none p h i = i
Shorter-first k (some r) p h i = h

Shorter-if :
    (k : ℕ) (b : Bool) (o : Option (ℕ × Text)) → Shorter k o → Shorter k (if b then o else none)
Shorter-if k true o h = h
Shorter-if k false o h = tt

Shorter-map : (cs : Text) (o : Option ℕ) → Shorter (length cs) (Option.map (λ k. (k, cs)) o)
Shorter-map cs none = tt
Shorter-map cs (some k) = omega arith

pub match_escape-Shorter : (c : ℕ) (cs : Text) → Shorter (length cs) (match_escape c cs)
unfolding match_escape
match_escape-Shorter c cs =
    Shorter-first _ _ _ (Shorter-if _ (is_octal c) _ (octal_middle-Shorter (c - 48) cs)) (
      Shorter-first _ _ _ (Shorter-if _ (nat_eq c b'x') _ (hex_pair-Shorter cs))
        (Shorter-map cs (control c)))

abbrev pub Fits : ℕ → Option Text → Type 0
Fits k none = Unit
Fits k (some v) = length v ≤ k

last_of-Fits :
    (c : ℕ) (cs : Text) (o : Option Text)
    → Fits (length cs) o
    → Fits (suc (length cs)) (last_of c cs o)
last_of-Fits c cs none i = elim (Bool-cases (nat_eq c newline)) [
  | inl e ↦ rw e (omega arith)
  | inr e ↦ rw e tt
]
last_of-Fits c cs (some v) i = omega (arith, i)

pub last_line-Fits : (t : Text) → Fits (length t) (last_line t)
unfolding last_line
last_line-Fits [] = tt
last_line-Fits (c ∷ cs) = last_of-Fits c cs (last_line cs) (last_line-Fits cs)
