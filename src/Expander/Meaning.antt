-- ===== src/Expander/Meaning.antt =====
-- Expansion gives what a text means.
use mathlib.Core.List.{append_assoc, append-nil}
use common_core.Base.{
  ℕ, zero, suc, ◌+◌, ◌<◌, ◌≡◌, refl, sym, ap, ◌∙◌, Bool, true, false, ◌||◌, Option, none, some,
  List, [], ◌∷◌, ◌++◌, length, length-append, nat_eq, arith, take_while, drop_while,
}
use common_core.Base.Text.{Text, backslash}
use common_core.Base.Result.{Result, ok, raised, chain, apply}
use common_core.Expander.Unescape.{Failure, unescape}
use common_core.Expander.{
  plain, token_at, is_start, is_end, end_text, process_backslash, Expanded, before, behind,
  check_end, evaluated, process_subexpression, expand_text, string, substitute, arg_of, last_line,
}
use common_core.Expander.Grammar.{
  Bracket, curly, square, round, start, finish, Special, slash, dollar, opening, closing, code,
  Template, done, character, escaped, placeholder, bracketed, IsPlain, render, meaning,
}

token_at-plain :
    (inside : Bool) (c : ℕ) (cs : Text)
    → nat_eq c backslash || nat_eq c b'$' || is_start c || is_end c ≡ false
    → token_at inside c cs ≡ plain
unfolding token_at
token_at-plain inside c cs h = ground arith

process_backslash-code :
    (s : Special) (cs : Text) (lines : List Text)
    → process_backslash (code s ∷ cs) lines
      ≡ ok (record { arg = code s ∷ []; rest = cs; lines = lines })
unfolding process_backslash unescape take_while drop_while last_line
process_backslash-code slash cs lines = refl
process_backslash-code dollar cs lines = refl
process_backslash-code (opening curly) cs lines = refl
process_backslash-code (opening square) cs lines = refl
process_backslash-code (opening round) cs lines = refl
process_backslash-code (closing curly) cs lines = refl
process_backslash-code (closing square) cs lines = refl
process_backslash-code (closing round) cs lines = refl

check_end-finish : (b : Bracket) → check_end (start b) (some (finish b)) ≡ ok tt
unfolding check_end
check_end-finish curly = refl
check_end-finish square = refl
check_end-finish round = refl

module _ (evaluate : ℕ → Text → Result Text (Option Text)) where
  abbrev expand : ℕ → Bool → Text → List Text → Result Failure Expanded
  expand = expand_text evaluate

  behind-apply :
      (a : Text) (r : Result Failure Text) (x : Expanded)
      → behind a (apply (λ u. before u x) r) ≡ apply (λ u. before u x) (apply (λ u. a ++ u) r)
  behind-apply a (ok u) x = ap (λ v. ok (record x { arg = v })) (sym (append_assoc a u x.arg))
  behind-apply a (raised e) x = refl

  -- One round for a character
  round-character :
      (n : ℕ) (inside : Bool) (c : ℕ) (cs : Text) (lines : List Text)
      → nat_eq c backslash || nat_eq c b'$' || is_start c || is_end c ≡ false
      → expand (suc n) inside (c ∷ cs) lines ≡ behind (c ∷ []) (expand n inside cs lines)
  unfolding expand_text
  round-character n inside c cs lines h = rw (expand_text, token_at-plain inside c cs h) refl

  round-escaped :
      (n : ℕ) (inside : Bool) (s : Special) (cs : Text) (lines : List Text)
      → expand (suc n) inside (backslash ∷ code s ∷ cs) lines
        ≡ behind (code s ∷ []) (expand n inside cs lines)
  unfolding expand_text token_at
  round-escaped n inside s cs lines = rw (expand_text, process_backslash-code s cs lines) refl

  round-placeholder :
      (n : ℕ) (inside : Bool) (b : Bracket) (cs : Text) (lines : List Text)
      → expand (suc n) inside (b'$' ∷ start b ∷ cs) lines
        ≡ chain (expand n true cs lines) (λ x.
          chain
            (process_subexpression evaluate (start b) x)
            (λ part. behind part (expand n inside x.rest x.lines)))
  unfolding expand_text token_at
  round-placeholder n inside curly cs lines = refl
  round-placeholder n inside square cs lines = refl
  round-placeholder n inside round cs lines = refl

  round-bracketed :
      (n : ℕ) (inside : Bool) (b : Bracket) (cs : Text) (lines : List Text)
      → expand (suc n) inside (start b ∷ cs) lines
        ≡ chain
            (expand n true cs lines)
            (λ x. behind (start b ∷ x.arg ++ end_text x.end) (expand n inside x.rest x.lines))
  unfolding expand_text token_at
  round-bracketed n inside curly cs lines = refl
  round-bracketed n inside square cs lines = refl
  round-bracketed n inside round cs lines = refl

  round-finish :
      (n : ℕ) (b : Bracket) (cs : Text) (lines : List Text)
      → expand (suc n) true (finish b ∷ cs) lines
        ≡ ok (record { arg = []; end = some (finish b); rest = cs; lines = lines })
  unfolding expand_text token_at
  round-finish n curly cs lines = refl
  round-finish n square cs lines = refl
  round-finish n round cs lines = refl

  abbrev inner_end : Bracket → Text → List Text → Expanded
  inner_end b rest lines = record { arg = []; end = some (finish b); rest = rest; lines = lines }

  module _ (x : Expanded) (b : Bracket) (rest : Text) (lines : List Text)
      (more : Text → List Text → Result Failure Expanded) (after : Result Failure Text)
      (e : more rest lines ≡ apply (λ u. before u x) after) where
    evaluated_then :
        (r : Result Failure Text)
        → chain r (λ part. behind part (more rest lines))
          ≡ apply (λ u. before u x) (chain r (λ part. apply (λ u. part ++ u) after))
    evaluated_then (ok part) = ap (behind part) e ∙ behind-apply part after x
    evaluated_then (raised f) = refl

    placeholder_then :
        (inner : Result Failure Text)
        → chain (apply (λ u. before u (inner_end b rest lines)) inner) (λ y.
          chain
            (process_subexpression evaluate (start b) y)
            (λ part. behind part (more y.rest y.lines)))
          ≡ apply
              (λ u. before u x)
              (chain inner (λ arg.
                chain (evaluated (evaluate (start b) arg)) (λ part. apply (λ u. part ++ u) after)))
    unfolding process_subexpression
    placeholder_then (ok arg) =
        rw (check_end-finish b, append-nil arg)
          (evaluated_then (evaluated (evaluate (start b) arg)))
    placeholder_then (raised f) = refl

    bracketed_then :
        (inner : Result Failure Text)
        → chain
            (apply (λ u. before u (inner_end b rest lines)) inner)
            (λ y. behind (start b ∷ y.arg ++ end_text y.end) (more y.rest y.lines))
          ≡ apply
              (λ u. before u x)
              (chain inner (λ arg. apply (λ u. (start b ∷ arg ++ finish b ∷ []) ++ u) after))
    bracketed_then (ok arg) =
        rw (append-nil arg) (evaluated_then (ok (start b ∷ arg ++ finish b ∷ [])))
    bracketed_then (raised f) = refl

  lengths :
      (inner t : Template) (b : Bracket)
      → length (render inner ++ finish b ∷ render t)
        ≡ length (render inner) + suc (length (render t))
  lengths inner t b = length-append (render inner) (finish b ∷ render t)

  expand-render :
      (t : Template) (n : ℕ) (inside : Bool) (tail : Text) (lines : List Text) (x : Expanded)
      → IsPlain t
      → length (render t) < n
      → ((m : ℕ) → expand (suc m) inside tail lines ≡ ok x)
      → expand n inside (render t ++ tail) lines ≡ apply (λ u. before u x) (meaning evaluate t)
  unfolding meaning
  expand-render t zero inside tail lines x plain_text enough stop = absurd (omega (arith, enough))
  expand-render done (suc n) inside tail lines x plain_text enough stop = stop n
  expand-render (character c t) (suc n) inside tail lines x (no_special, plain_text) enough stop =
      round-character n inside c (render t ++ tail) lines no_special
      ∙ ap (behind (c ∷ []))
          (expand-render t n inside tail lines x plain_text (omega (arith, enough)) stop)
      ∙ behind-apply (c ∷ []) (meaning evaluate t) x
  expand-render (escaped s t) (suc n) inside tail lines x plain_text enough stop =
      round-escaped n inside s (render t ++ tail) lines
      ∙ ap (behind (code s ∷ []))
          (expand-render t n inside tail lines x plain_text (omega (arith, enough)) stop)
      ∙ behind-apply (code s ∷ []) (meaning evaluate t) x
  expand-render (placeholder b inner t) (suc n) inside tail lines x (inner_plain, plain_text) enough
        stop =
      let rest = render t ++ tail in
      ap (λ u. expand (suc n) inside (b'$' ∷ start b ∷ u) lines)
        (append_assoc (render inner) (finish b ∷ render t) tail)
      ∙ round-placeholder n inside b (render inner ++ finish b ∷ rest) lines
      ∙ ap
          (λ r. chain r (λ y.
            chain (process_subexpression evaluate (start b) y)
              (λ part. behind part (expand n inside y.rest y.lines))))
          (expand-render inner n true (finish b ∷ rest) lines (inner_end b rest lines) inner_plain
            (omega (arith, enough, lengths inner t b)) (λ m. round-finish m b rest lines))
      ∙ placeholder_then x b rest lines (expand n inside) (meaning evaluate t)
          (expand-render t n inside tail lines x plain_text
            (omega (arith, enough, lengths inner t b)) stop)
          (meaning evaluate inner)
  expand-render (bracketed b inner t) (suc n) inside tail lines x (inner_plain, plain_text) enough
        stop =
      let rest = render t ++ tail in
      ap (λ u. expand (suc n) inside (start b ∷ u) lines)
        (append_assoc (render inner) (finish b ∷ render t) tail)
      ∙ round-bracketed n inside b (render inner ++ finish b ∷ rest) lines
      ∙ ap
          (λ r.
            chain r
              (λ y. behind (start b ∷ y.arg ++ end_text y.end) (expand n inside y.rest y.lines)))
          (expand-render inner n true (finish b ∷ rest) lines (inner_end b rest lines) inner_plain
            (omega (arith, enough, lengths inner t b)) (λ m. round-finish m b rest lines))
      ∙ bracketed_then x b rest lines (expand n inside) (meaning evaluate t)
          (expand-render t n inside tail lines x plain_text
            (omega (arith, enough, lengths inner t b)) stop)
          (meaning evaluate inner)

  whole : Expanded
  whole = record { arg = []; end = none; rest = []; lines = [] }

  arg_of-before : (r : Result Failure Text) → arg_of (apply (λ u. before u whole) r) ≡ r
  unfolding whole
  arg_of-before (ok u) = ap ok (append-nil u)
  arg_of-before (raised e) = refl

  -- The text of a template, whose characters are not special, is replaced by what the template means:
  -- escaped characters by themselves, and placeholders, the inner ones first, by their values.
  pub substitute-render :
      (t : Template) → IsPlain t → substitute evaluate (string (render t)) ≡ meaning evaluate t
  unfolding substitute expand_text whole
  substitute-render t plain_text =
      ap (arg_of) (
        ap (λ u. expand (suc (length (render t))) false u []) (sym (append-nil (render t)))
        ∙ expand-render t (suc (length (render t))) false [] [] whole plain_text (omega arith)
            (λ m. refl))
      ∙ arg_of-before (meaning evaluate t)
