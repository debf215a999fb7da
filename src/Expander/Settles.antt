-- ===== src/Expander/Settles.antt =====
-- The parts of a round leave no more characters than they are given, and raise the code's exceptions.
use common_core.Base.{
  ℕ, suc, ◌+◌, ◌≤◌, ◌≡◌, refl, inl, inr, Bool, true, false, ◌&&◌, Option, none, some, List, [], ◌∷◌,
  ◌++◌, length, length-append, length-while, nat_eq, arith, Bool-cases, take_while, drop_while,
  if◌then◌else◌,
}
use mathlib.Core.Option
use common_core.Base.Text.{Text, backslash, is_space}
use common_core.Base.Result.{Result, ok, raised, chain, apply}
use common_core.Expander.Unescape.{
  Failure, unescape, match_escape, match_unicode, unfinished, unescape_other, end_of_input,
  name_error, index_error, missing_end, expected_end, evaluation, end_of_file,
}
use common_core.Expander.Shorter.{Shorter, match_escape-Shorter, Fits, last_line-Fits}
use common_core.Expander.{
  Token, space, plain, subexpression, sub_nested, sub_end, token_at, subexpression_at, is_start,
  is_end, read_line, extended, unescaped, on_same_line, behind_spaces, process_backslash, Step,
  Expanded, behind, check_end, evaluated, left, end_token, last_line,
}

abbrev pub is_unfinished : Failure → Bool
is_unfinished unfinished = true
is_unfinished end_of_input = false
is_unfinished (missing_end c) = false
is_unfinished (expected_end c d) = false
is_unfinished (evaluation t) = false
is_unfinished end_of_file = false
is_unfinished name_error = false
is_unfinished index_error = false

-- A result that leaves at most `k` characters, or an exception of the code
unfoldable pub Settles : {A : Type 0} → (A → ℕ) → ℕ → Result Failure A → Type 0
Settles size k (ok a) = size a ≤ k
Settles size k (raised e) = is_unfinished e ≡ false

module _ {A : Type 0} (size : A → ℕ) where
  pub Settles-more :
      (j k : ℕ) → j ≤ k → (r : Result Failure A) → Settles size j r → Settles size k r
  unfolding Settles
  Settles-more j k le (ok a) h = omega (arith, h)
  Settles-more j k le (raised e) h = h

module _ {A B : Type 0} (size : A → ℕ) where
  pub Settles-chain :
      (j k : ℕ) (size' : B → ℕ) (r : Result Failure A) (f : A → Result Failure B)
      → Settles size j r
      → ((a : A) → size a ≤ j → Settles size' k (f a))
      → Settles size' k (chain r f)
  unfolding Settles
  Settles-chain j k size' (ok a) f h g = g a h
  Settles-chain j k size' (raised e) f h g = h

pub left_mono : (t u : Text) (lines : List Text) → length t ≤ length u → left t lines ≤ left u lines
left_mono t u [] h = h
left_mono t u (line ∷ lines) h = omega (arith, h)

pub unescape-Settles : (t : Text) → Settles (λ r. length r.1) (length t) (unescape t)
unfolding unescape Settles
unescape-Settles [] = refl
unescape-Settles (c ∷ cs) = other (match_escape c cs) (match_escape-Shorter c cs)
  where
    other :
        (o : Option (ℕ × Text))
        → Shorter (length cs) o
        → Settles (λ r. length r.1) (suc (length cs)) (unescape_other c cs o)
    other (some r) h = omega (arith, h)
    other none h = elim (Bool-cases (match_unicode c cs)) [
      | inl t ↦ rw t refl
      | inr f ↦ rw f (omega arith)
    ]

unfoldable pub step_size : Step → ℕ
step_size s = left s.rest s.lines

pub process_backslash-Settles :
    (t : Text) (lines : List Text) → Settles step_size (left t lines) (process_backslash t lines)
unfolding process_backslash Settles step_size
process_backslash-Settles t lines =
    split (take_while is_space t) (drop_while is_space t) (length-while is_space t)
  where
    next : (lines : List Text) → Settles step_size (left t lines) (extended (read_line lines))
    next [] = refl
    next ([] ∷ lines) = refl
    next ((c ∷ cs) ∷ lines) = omega (arith, left_mono cs (c ∷ cs) lines (omega arith))

    one :
        (r : Result Failure (ℕ × Text))
        → Settles (λ r. length r.1) (length t) r
        → Settles step_size (left t lines) (apply (unescaped lines) r)
    one (ok (c, rest)) h = left_mono rest t lines h
    one (raised e) h = h

    same :
        (c : ℕ) (cs : Text) (k : ℕ) (o : Option Text)
        → k + suc (length cs) ≡ length t
        → Fits k o
        → Settles step_size (left t lines) (on_same_line t lines (Option.map (λ u. u ++ c ∷ cs) o))
    same c cs k none h fits = one (unescape t) (unescape-Settles t)
    same c cs k (some u) h fits =
        left_mono (u ++ c ∷ cs) t lines (omega (arith, fits, h, length-append u (c ∷ cs)))

    split :
        (spaces after : Text)
        → length spaces + length after ≡ length t
        → Settles step_size (left t lines) (behind_spaces t lines spaces after)
    split spaces [] h = next lines
    split spaces (c ∷ cs) h = same c cs (length spaces) (last_line spaces) h (last_line-Fits spaces)

unfoldable pub expanded_size : Expanded → ℕ
expanded_size x = left x.rest x.lines

abbrev pub TokenFits : ℕ → Token → Type 0
TokenFits k (subexpression start rest) = length rest ≤ k
TokenFits k space = Unit
TokenFits k sub_nested = Unit
TokenFits k sub_end = Unit
TokenFits k plain = Unit

pub subexpression_at-TokenFits : (cs : Text) → TokenFits (length cs) (subexpression_at cs)
subexpression_at-TokenFits [] = tt
subexpression_at-TokenFits (c ∷ cs) = elim (Bool-cases (is_start c)) [
  | inl e ↦ rw e (omega arith)
  | inr e ↦ rw e tt
]

pub TokenFits-if :
    (k : ℕ) (b : Bool) (t u : Token)
    → TokenFits k t
    → TokenFits k u
    → TokenFits k (if b then t else u)
TokenFits-if k true t u h i = h
TokenFits-if k false t u h i = i

pub token_at-TokenFits :
    (inside : Bool) (c : ℕ) (cs : Text) → TokenFits (length cs) (token_at inside c cs)
unfolding token_at
token_at-TokenFits inside c cs = TokenFits-if _ (nat_eq c backslash) _ _ tt (
    TokenFits-if _ (nat_eq c b'$') _ _ (subexpression_at-TokenFits cs)
      (TokenFits-if _ (is_start c) _ _ tt (TokenFits-if _ (inside && is_end c) _ _ tt tt)))

pub left-cons : (c : ℕ) (cs : Text) (lines : List Text) → left (c ∷ cs) lines ≡ suc (left cs lines)
left-cons c cs [] = refl
left-cons c cs (line ∷ lines) = omega arith

pub behind-Settles :
    (k : ℕ) (part : Text) (r : Result Failure Expanded)
    → Settles expanded_size k r
    → Settles expanded_size k (behind part r)
unfolding Settles expanded_size
behind-Settles k part (ok x) h = h
behind-Settles k part (raised e) h = h

unfoldable pub no_size : {A : Type 0} → A → ℕ
no_size a = 0

pub evaluated-finished : (r : Result Text (Option Text)) → Settles no_size 0 (evaluated r)
unfolding Settles no_size
evaluated-finished (ok none) = omega arith
evaluated-finished (ok (some t)) = omega arith
evaluated-finished (raised e) = refl

pub check_end-finished : (start : ℕ) (o : Option ℕ) → Settles no_size 0 (check_end start o)
unfolding check_end Settles no_size
check_end-finished start none = refl
check_end-finished start (some c) = elim (Bool-cases (nat_eq c (end_token start))) [
  | inl e ↦ rw e (omega arith)
  | inr e ↦ rw e refl
]

unfoldable pub stays_unfinished : Result Failure Text → Bool
stays_unfinished (ok t) = false
stays_unfinished (raised e) = is_unfinished e
