-- ===== src/Settings/Comments/Ends.antt =====
-- Removing comments ends on every text.
use mathlib.Core.Option
use common_core.Base.Text.{Text, backslash, begins, newline, rest_of}
use common_core.Base.{
  ℕ, zero, suc, ◌≡◌, ◌≤◌, ◌<◌, ◌+◌, refl, inl, inr, Bool, true, false, ◌&&◌, ◌||◌, not, Option,
  none, some, [], ◌∷◌, ◌++◌, length, length-append, nat_eq, drop_while, arith, Bool-cases,
  Option-cases,
}
use common_core.Settings.Comments.{
  single_quote, skip_line, skip_block, keep, match_quoted, nothing_kept, match_comment,
  replace_within, remove_comments,
}

-- What a match leaves is not longer than what it was tried on, and neither is what it keeps.
abbrev Leaves : ℕ → Option (Text × Text) → Type 0
Leaves n none = Unit
Leaves n (some (kept, rest)) = length kept + length rest ≤ n

abbrev LeavesRest : ℕ → Option Text → Type 0
LeavesRest n none = Unit
LeavesRest n (some rest) = length rest ≤ n

length-drop_while : (p : ℕ → Bool) (t : Text) → length (drop_while p t) ≤ length t
unfolding drop_while
length-drop_while p [] = omega arith
length-drop_while p (c ∷ cs) = ground (arith, length-drop_while p cs)

length-rest_of : (t : Text) → length (rest_of t) ≤ length t
length-rest_of [] = omega arith
length-rest_of (c ∷ cs) = omega arith

longer : (n : ℕ) (o : Option Text) → LeavesRest n o → LeavesRest (suc n) o
longer n none h = tt
longer n (some r) h = omega arith

skip_block-LeavesRest : (t : Text) → LeavesRest (length t) (skip_block t)
unfolding skip_block
skip_block-LeavesRest [] = tt
skip_block-LeavesRest (c ∷ cs) = elim (Bool-cases (nat_eq c b'*' && begins b'/' cs)) [
  | inl p ↦ rw p (omega (arith, length-rest_of cs))
  | inr n ↦ rw n (longer (length cs) (skip_block cs) (skip_block-LeavesRest cs))
]

keep-Leaves : (c n : ℕ) (o : Option (Text × Text)) → Leaves n o → Leaves (suc n) (keep c o)
keep-Leaves c n none h = tt
keep-Leaves c n (some (k, r)) h = omega arith

match_quoted-Leaves :
    (q : ℕ) (escaped : Bool) (t : Text) → Leaves (length t) (match_quoted q escaped t)
unfolding match_quoted
match_quoted-Leaves q true [] = tt
match_quoted-Leaves q false [] = tt
match_quoted-Leaves q true (c ∷ cs) =
    keep-Leaves c (length cs) (match_quoted q false cs) (match_quoted-Leaves q false cs)
match_quoted-Leaves q false (c ∷ cs) =
    let more =
      keep-Leaves c (length cs) (match_quoted q (nat_eq c backslash) cs)
        (match_quoted-Leaves q (nat_eq c backslash) cs) in
    elim (Bool-cases (nat_eq c backslash)) [
      | inl b ↦ rw b (rw b at more)
      | inr n ↦ elim (Bool-cases (nat_eq c q)) [
        | inl e ↦ rw (n, e) (omega arith)
        | inr d ↦ rw (n, d) (rw n at more)
      ]
    ]

-- A match takes a character at least.
abbrev Shortens : ℕ → Option (Text × Text) → Type 0
Shortens n none = Unit
Shortens n (some (kept, rest)) = (length rest < n) × (length kept + length rest ≤ n)

nothing_kept-Shortens :
    (n : ℕ) (o : Option Text) → LeavesRest n o → Shortens (suc n) (nothing_kept o)
nothing_kept-Shortens n none h = tt
nothing_kept-Shortens n (some r) h = omega arith

keep-Shortens : (c n : ℕ) (o : Option (Text × Text)) → Leaves n o → Shortens (suc n) (keep c o)
keep-Shortens c n none h = tt
keep-Shortens c n (some (k, r)) h = omega arith

match_comment-Shortens : (c : ℕ) (cs : Text) → Shortens (suc (length cs)) (match_comment c cs)
unfolding match_comment skip_line
match_comment-Shortens c cs = elim (Bool-cases (nat_eq c b'/' && begins b'/' cs)) [
  | inl p ↦
      rw (match_comment, p)
        (omega
          (arith, length-drop_while (λ d. not (nat_eq d newline)) (rest_of cs), length-rest_of cs))
  | inr p ↦ elim (Bool-cases (nat_eq c b'/' && begins b'*' cs)) [
    | inl q ↦
        rw (match_comment, p, q)
          (nothing_kept-Shortens (length cs) (skip_block (rest_of cs)) (
            within (skip_block (rest_of cs)) (length-rest_of cs)
              (skip_block-LeavesRest (rest_of cs))))
    | inr q ↦ elim (Bool-cases (nat_eq c b'#')) [
      | inl r ↦
          rw (match_comment, p, q, r)
            (omega (arith, length-drop_while (λ d. not (nat_eq d newline)) cs))
      | inr r ↦ elim (Bool-cases (nat_eq c single_quote || nat_eq c b'"')) [
        | inl s ↦
            rw (match_comment, p, q, r, s)
              (keep-Shortens c (length cs) (match_quoted c false cs)
                (match_quoted-Leaves c false cs))
        | inr s ↦ rw (match_comment, p, q, r, s) tt
      ]
    ]
  ]
]
  where
    within : {m n : ℕ} (o : Option Text) → m ≤ n → LeavesRest m o → LeavesRest n o
    within none l h = tt
    within (some r) l h = omega arith

-- What replacing the comments of a text gives: a text that is not longer
abbrev Gives : ℕ → Option Text → Type 0
Gives n o = (r : Text) × (o ≡ some r) × (length r ≤ n)

replaced :
    (k : Text) (m n : ℕ) (o : Option Text)
    → length k + m ≤ n
    → Gives m o
    → Gives n (Option.map (λ t. k ++ t) o)
replaced k m n o l (r, p, h) = (k ++ r, rw p refl, omega (arith, length-append k r))

replace_within-Gives :
    (fuel : ℕ) (t : Text) → length t < fuel → Gives (length t) (replace_within fuel t)
unfolding replace_within
replace_within-Gives zero t h = elim h [ ]
replace_within-Gives (suc fuel) [] h = ([], refl, omega arith)
replace_within-Gives (suc fuel) (c ∷ cs) h = elim (Option-cases (match_comment c cs)) [
  | inl n ↦
      rw (replace_within, n)
        (replaced (c ∷ []) (length cs) (suc (length cs)) (replace_within fuel cs) (omega arith)
          (replace_within-Gives fuel cs (omega arith)))
  | inr ((k, rest), p) ↦
      let short = rw p at (match_comment-Shortens c cs) in
      rw (replace_within, p)
        (replaced k (length rest) (suc (length cs)) (replace_within fuel rest) short.1
          (replace_within-Gives fuel rest (omega (arith, short.0))))
]

-- Removing the comments of a text ends, whatever the text is, and never gives a longer text.
remove_comments-ends :
    (t : Text) → (r : Text) × (remove_comments t ≡ some r) × (length r ≤ length t)
unfolding remove_comments
remove_comments-ends t = replace_within-Gives (suc (length t)) t (omega arith)
