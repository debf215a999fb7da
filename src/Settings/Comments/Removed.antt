-- ===== src/Settings/Comments/Removed.antt =====
-- The code removes exactly the comments.
use common_core.Base.Text.{Text, backslash, newline, rest_of}
use common_core.Base.{
  ℕ, zero, suc, ◌≡◌, ◌<◌, refl, sym, inl, inr, ◌⊎◌, ap, ◌∙◌, true, false, ◌&&◌, ◌||◌, not, Option,
  none, some, List, [], ◌∷◌, ◌++◌, length, length-append, nat_eq, drop_while-append, All, arith,
  Bool-cases,
}
use mathlib.Core.List.{append_assoc}
use mathlib.Core.Bool.{false≢true}
use mathlib.Core.Option
use common_core.Settings.Comments.{
  single_quote, skip_line, skip_block, keep, match_quoted, nothing_kept, match_comment,
  replace_within, remove_comments,
}
use common_core.Settings.Comments.Tokens.{
  Piece, literal, escape, Token, plain, string, slashes, hash, block, render_pieces, render_token,
  render, kept_token, kept, IsPiece, is_quote, OneLine, EndsLine, closes, IsToken, AreTokens,
}

skip_line-append : (t rest : Text) → OneLine t → EndsLine rest → skip_line (t ++ rest) ≡ rest
unfolding skip_line
skip_line-append t [] a e = drop_while-append (λ c. not (nat_eq c newline)) t [] a refl
skip_line-append t (c ∷ cs) a e =
    drop_while-append (λ d. not (nat_eq d newline)) t (c ∷ cs) a (rw e refl)

skip_block-append :
    (t rest : Text) → closes t ≡ false → skip_block (t ++ b'*' ∷ b'/' ∷ rest) ≡ some rest
unfolding skip_block
skip_block-append [] rest h = refl
skip_block-append (c ∷ []) rest h = ground arith
skip_block-append (c ∷ d ∷ t) rest h = elim (Bool-cases (nat_eq c b'*' && nat_eq d b'/')) [
  | inl p ↦ absurd (false≢true (sym h ∙ rw p refl))
  | inr n ↦ rw n (skip_block-append (d ∷ t) rest (rw n at h))
]

match_quoted-append :
    (q : ℕ) (ps : List Piece) (rest : Text)
    → is_quote q ≡ true
    → All (IsPiece q) ps
    → match_quoted q false (render_pieces ps ++ q ∷ rest) ≡ some (render_pieces ps ++ q ∷ [], rest)
unfolding match_quoted
match_quoted-append q [] rest i a = ground arith
match_quoted-append q (literal c ∷ ps) rest i a =
    rw (a.0.0, a.0.1) (ap (keep c) (match_quoted-append q ps rest i a.1))
match_quoted-append q (escape c ∷ ps) rest i a =
    ap (λ o. keep backslash (keep c o)) (match_quoted-append q ps rest i a.1)

quote-cases : (q : ℕ) → is_quote q ≡ true → (q ≡ single_quote) ⊎ (q ≡ b'"')
quote-cases q h = ground arith

-- What a match at a token finds: the token, with what is kept of it, or nothing at a plain character.
match_token : (t : Token) (rest : Text) → Option (Text × Text)
match_token (plain c) rest = none
match_token t rest = some (kept_token t, rest)

head : Text → ℕ
head [] = 0
head (c ∷ cs) = c

match_comment-token :
    (t : Token) (rest : Text)
    → IsToken t rest
    → match_comment (head (render_token t)) (rest_of (render_token t ++ rest)) ≡ match_token t rest
unfolding match_comment match_token head
match_comment-token (plain c) rest h =
    let quotes : (nat_eq c single_quote || nat_eq c b'"') ≡ false = ground (arith, h.0) in
    rw (match_comment, h.2, h.3, h.1, quotes) refl
match_comment-token (string q ps) rest h =
    rw (append_assoc (render_pieces ps) (q ∷ []) rest) (elim (quote-cases q h.0) [
      | inl p ↦
          rw p
            (ap (keep single_quote) (match_quoted-append single_quote ps rest refl (rw p at h.1)))
      | inr p ↦ rw p (ap (keep b'"') (match_quoted-append b'"' ps rest refl (rw p at h.1)))
    ])
match_comment-token (slashes t) rest h = ap (λ r. some ([], r)) (skip_line-append t rest h.0 h.1)
match_comment-token (hash t) rest h = ap (λ r. some ([], r)) (skip_line-append t rest h.0 h.1)
match_comment-token (block t) rest h =
    rw (append_assoc t (b'*' ∷ b'/' ∷ []) rest) (ap nothing_kept (skip_block-append t rest h))

replace_within-token :
    (fuel : ℕ) (t : Token) (rest : Text)
    → IsToken t rest
    → replace_within (suc fuel) (render_token t ++ rest)
      ≡ Option.map (λ u. kept_token t ++ u) (replace_within fuel rest)
unfolding replace_within match_token head
replace_within-token fuel (plain c) rest h =
    rw (replace_within, match_comment-token (plain c) rest h) refl
replace_within-token fuel (string q ps) rest h =
    rw (replace_within, match_comment-token (string q ps) rest h) refl
replace_within-token fuel (slashes t) rest h =
    rw (replace_within, match_comment-token (slashes t) rest h) refl
replace_within-token fuel (hash t) rest h =
    rw (replace_within, match_comment-token (hash t) rest h) refl
replace_within-token fuel (block t) rest h =
    rw (replace_within, match_comment-token (block t) rest h) refl

length-render_token : (t : Token) → 0 < length (render_token t)
length-render_token (plain c) = omega arith
length-render_token (string q ps) = omega arith
length-render_token (slashes t) = omega arith
length-render_token (hash t) = omega arith
length-render_token (block t) = omega arith

replace_within-render :
    (fuel : ℕ) (ts : List Token)
    → length (render ts) < fuel
    → AreTokens ts
    → replace_within fuel (render ts) ≡ some (kept ts)
unfolding replace_within
replace_within-render zero ts h a = elim h [ ]
replace_within-render (suc fuel) [] h a = refl
replace_within-render (suc fuel) (t ∷ ts) h a =
    let shorter : length (render ts) < fuel =
      omega (arith, length-append (render_token t) (render ts), length-render_token t) in
    replace_within-token fuel t (render ts) a.0
    ∙ ap (λ o. Option.map (λ u. kept_token t ++ u) o) (replace_within-render fuel ts shorter a.1)

-- Of a text that is made of characters, quoted strings and comments, the comments are removed and
-- nothing else: strings stay as they are, whatever they contain. Strings are closed, a comment after
-- slashes or a hash ends with its line, no other comment contains its end, and no character outside
-- strings begins one or a comment.
pub remove_comments-render :
    (ts : List Token) → AreTokens ts → remove_comments (render ts) ≡ some (kept ts)
unfolding remove_comments
remove_comments-render ts a = replace_within-render (suc (length (render ts))) ts (omega arith) a
