-- ===== src/Expander/Ends.antt =====
-- Expansion ends: every round uses up a character of the text or of the lines to come.
use common_core.Base.{
  ℕ, zero, suc, ◌≤◌, ◌<◌, ◌≡◌, ◌≢◌, refl, sym, ap, ◌∙◌, Bool, true, false, Option, none, some, List,
  [], ◌∷◌, ◌++◌, length, arith,
}
use mathlib.Core.Bool.{false≢true}
use common_core.Base.Text.{Text}
use common_core.Base.Result.{Result, ok, raised}
use common_core.Expander.Unescape.{Failure, unfinished}
use common_core.Expander.{
  Token, space, plain, subexpression, sub_nested, sub_end, token_at, read_line, process_backslash,
  Expanded, behind, end_text, check_end, process_subexpression, expand_text, Input, string, stream,
  nothing, substitute, substitute_text, substitute_first, arg_of, left,
}
use common_core.Expander.Settles.{
  Settles, Settles-more, Settles-chain, left_mono, step_size, process_backslash-Settles,
  expanded_size, TokenFits, token_at-TokenFits, left-cons, behind-Settles, no_size,
  evaluated-finished, check_end-finished, stays_unfinished,
}

module _ (evaluate : ℕ → Text → Result Text (Option Text)) where
  process_subexpression-finished :
      (start : ℕ) (x : Expanded) → Settles no_size 0 (process_subexpression evaluate start x)
  unfolding process_subexpression
  process_subexpression-finished start x =
      Settles-chain no_size 0 0 no_size (check_end start x.end) _ (check_end-finished start x.end)
        (λ u done. evaluated-finished (evaluate start x.arg))

  Ended : ℕ → Type 0
  Ended n =
      (inside : Bool) (text : Text) (lines : List Text)
      → left text lines < n
      → Settles expanded_size (left text lines) (expand_text evaluate n inside text lines)

  -- What follows a token
  after-Settles :
      (n k : ℕ) (inside : Bool) (part rest : Text) (lines : List Text)
      → Ended n
      → left rest lines ≤ k
      → k < n
      → Settles expanded_size k (behind part (expand_text evaluate n inside rest lines))
  unfolding Ended
  after-Settles n k inside part rest lines ended fits enough =
      behind-Settles k part (expand_text evaluate n inside rest lines) (
        Settles-more expanded_size (left rest lines) k fits
          (expand_text evaluate n inside rest lines)
          (ended inside rest lines (omega (arith, fits, enough))))

  round-Settles :
      (n : ℕ) (inside : Bool) (c : ℕ) (cs : Text) (lines : List Text)
      → left cs lines < n
      → Ended n
      → Settles expanded_size (left cs lines) (expand_text evaluate (suc n) inside (c ∷ cs) lines)
  unfolding expand_text Settles expanded_size Ended step_size no_size
  round-Settles n inside c cs lines enough ended =
      by_token (token_at inside c cs) refl (token_at-TokenFits inside c cs)
    where
      k : ℕ
      k = left cs lines

      next :
          (part rest : Text) (lines : List Text)
          → left rest lines ≤ k
          → Settles expanded_size k (behind part (expand_text evaluate n inside rest lines))
      next part rest lines fits = after-Settles n k inside part rest lines ended fits enough

      inner :
          (rest : Text)
          → length rest ≤ length cs
          → Settles expanded_size k (expand_text evaluate n true rest lines)
      inner rest fits =
          Settles-more expanded_size (left rest lines) k (left_mono rest cs lines fits)
            (expand_text evaluate n true rest lines)
            (ended true rest lines (omega (arith, left_mono rest cs lines fits, enough)))

      by_token :
          (t : Token)
          → token_at inside c cs ≡ t
          → TokenFits (length cs) t
          → Settles expanded_size k (expand_text evaluate (suc n) inside (c ∷ cs) lines)
      by_token space e fits =
          rw (expand_text, e)
            (Settles-chain step_size k k expanded_size (process_backslash cs lines) _
              (process_backslash-Settles cs lines) (λ s small. next s.arg s.rest s.lines small))
      by_token (subexpression start rest) e fits =
          rw (expand_text, e)
            (Settles-chain expanded_size k k expanded_size (expand_text evaluate n true rest lines)
              _ (inner rest fits)
              (λ x small.
                Settles-chain no_size 0 k expanded_size (process_subexpression evaluate start x) _
                  (process_subexpression-finished start x)
                  (λ part done. next part x.rest x.lines small)))
      by_token sub_nested e fits =
          rw (expand_text, e)
            (Settles-chain expanded_size k k expanded_size (expand_text evaluate n true cs lines) _
              (inner cs (omega arith))
              (λ x small. next (c ∷ x.arg ++ end_text x.end) x.rest x.lines small))
      by_token sub_end e fits = rw (expand_text, e) (omega arith)
      by_token plain e fits = rw (expand_text, e) (next (c ∷ []) cs lines (omega arith))

  expand_text-Settles : (n : ℕ) → Ended n
  unfolding expand_text Settles expanded_size Ended
  expand_text-Settles zero inside text lines enough = absurd (omega (arith, enough))
  expand_text-Settles (suc n) inside [] lines enough = omega arith
  expand_text-Settles (suc n) inside (c ∷ cs) lines enough =
      Settles-more expanded_size (left cs lines) (left (c ∷ cs) lines)
        (omega (arith, left-cons c cs lines)) (expand_text evaluate (suc n) inside (c ∷ cs) lines)
        (round-Settles n inside c cs lines (omega (arith, left-cons c cs lines, enough))
          (expand_text-Settles n))

  substitute_text-ends :
      (text : Text) (lines : List Text) → substitute_text evaluate text lines ≢ raised unfinished
  unfolding Ended Settles stays_unfinished
  substitute_text-ends text lines =
      finished _ (expand_text-Settles (suc (left text lines)) false text lines (omega arith))
    where
      finished :
          (r : Result Failure Expanded)
          → Settles expanded_size (left text lines) r
          → arg_of r ≢ raised unfinished
      finished (ok x) h e = cc
      finished (raised f) h e = false≢true (sym h ∙ ap stays_unfinished e)

  substitute_first-ends :
      (o : Option (Text × List Text)) → substitute_first evaluate o ≢ raised unfinished
  substitute_first-ends none = λ e. cc
  substitute_first-ends (some (text, lines)) = substitute_text-ends text lines

  -- For a text, a stream or nothing as the input, the rounds of `substitute` suffice, whatever
  -- evaluating a placeholder gives.
  pub substitute-ends : (input : Input) → substitute evaluate input ≢ raised unfinished
  unfolding substitute
  substitute-ends (string text) = substitute_text-ends text []
  substitute-ends (stream lines) = substitute_first-ends (read_line lines)
  substitute-ends nothing = substitute_text-ends [] []
