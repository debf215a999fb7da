-- ===== src/Names/Stripped.antt =====
-- What is left of names that begin with the same parts.
use common_core.Base.Text.{Text}
use common_core.Base.{
  ℕ, suc, ◌+◌, any, ◌⊎◌, inl, inr, Bool-cases, ◌≡◌, refl, sym, ap, ◌∙◌, Bool, true, false, List, [],
  ◌∷◌, ◌++◌, map, length, drop, All, All-map, nat_eq, list_beq, list_beq_reflects, eq_ℕ, arith,
}
use mathlib.Core.Path.{ap₂}
use mathlib.Core.Bool.{false≢true}
use mathlib.Core.List.{append-nil}
use common_core.Base.Int.{ℤ}
use common_core.Names.{
  split, join, common_parts, prefix_of, parts_length, common_prefix, native_items,
}

-- A part has no delimiter.
abbrev pub IsPart : ℕ → Text → Type 0
IsPart d t = All (λ c. nat_eq c d ≡ false) t

split-IsPart : (d : ℕ) (t : Text) → IsPart d t → split d t ≡ t ∷ []
unfolding split
split-IsPart d [] a = refl
split-IsPart d (c ∷ cs) a = rw (a.0, split-IsPart d cs a.1) refl

split-append : (d : ℕ) (t u : Text) → IsPart d t → split d (t ++ d ∷ u) ≡ t ∷ split d u
unfolding split
split-append d [] u a = ground arith
split-append d (c ∷ cs) u a = rw (a.0, split-append d cs u a.1) refl

-- A name: parts, of which there is one at least
split-join :
    (d : ℕ) (part : Text) (parts : List Text)
    → IsPart d part
    → All (IsPart d) parts
    → split d (join d (part ∷ parts)) ≡ part ∷ parts
split-join d part [] a h = split-IsPart d part a
split-join d part (next ∷ parts) a h =
    split-append d part (join d (next ∷ parts)) a
    ∙ ap (λ l. part ∷ l) (split-join d next parts h.0 h.1)

common_parts-append :
    (same xs ys : List Text) → common_parts (same ++ xs) (same ++ ys) ≡ same ++ common_parts xs ys
unfolding common_parts
common_parts-append [] xs ys = refl
common_parts-append (part ∷ same) xs ys =
    rw (common_parts, (list_beq_reflects part part).1 refl)
      (ap (λ l. part ∷ l) (common_parts-append same xs ys))

prefix_of-append :
    (same xs : List Text) (symbols : List (List Text))
    → prefix_of (same ++ xs) (map (λ ys. same ++ ys) symbols) ≡ same ++ prefix_of xs symbols
unfolding prefix_of
prefix_of-append same xs [] = refl
prefix_of-append same xs (ys ∷ symbols) =
    ap (λ l. prefix_of l (map (λ zs. same ++ zs) symbols)) (common_parts-append same xs ys)
    ∙ prefix_of-append same (common_parts xs ys) symbols

drop_past : (n d : ℕ) (t u : Text) → drop (length t + 1 + n) (t ++ d ∷ u) ≡ drop n u
drop_past n d [] u = let e : 0 + 1 + n ≡ suc n = omega arith in rw e refl
drop_past n d (c ∷ cs) u =
    let e : suc (length cs) + 1 + n ≡ suc (length cs + 1 + n) = omega arith in
    rw e (drop_past n d cs u)

drop-join :
    (d : ℕ) (same : List Text) (part : Text) (parts : List Text)
    → drop (parts_length same) (join d (same ++ part ∷ parts)) ≡ join d (part ∷ parts)
drop-join d [] part parts = refl
drop-join d (x ∷ []) part parts = drop_past 0 d x (join d (part ∷ parts))
drop-join d (x ∷ y ∷ same) part parts =
    drop_past (parts_length (y ∷ same)) d x (join d (y ∷ (same ++ part ∷ parts)))
    ∙ drop-join d (y ∷ same) part parts

abbrev pub has : Text → List Text → Bool
has p parts = any (λ part. list_beq p part) parts

-- A part that one of the names does not have
abbrev pub IsMissing : Text → List (List Text) → Type 0
IsMissing p [] = ⊥
IsMissing p (parts ∷ symbols) = (has p parts ≡ false) ⊎ IsMissing p symbols

has-cons : (p q : Text) (parts : List Text) → has p parts ≡ true → has p (q ∷ parts) ≡ true
unfolding any
has-cons p q parts h = ground arith

common_parts-has :
    (P : Text → Type 0) (parts other : List Text)
    → All P parts
    → All (λ p. P p × (has p other ≡ true)) (common_parts parts other)
unfolding common_parts any
common_parts-has P [] other a = tt
common_parts-has P (p ∷ parts) [] a = tt
common_parts-has P (p ∷ parts) (q ∷ other) a =
    let rest =
      All-map (λ x. P x × (has x other ≡ true)) (λ x. P x × (has x (q ∷ other) ≡ true))
        (common_parts parts other) (λ x h. (h.0, has-cons x q other h.1))
        (common_parts-has P parts other a.1) in
    elim (Bool-cases (list_beq p q)) [
      | inl e ↦ rw (common_parts, e) ((a.0, rw e refl), rest)
      | inr n ↦ rw (common_parts, n) rest
    ]

-- Parts that each are missing from a name do not remain.
prefix_of-nil :
    (parts : List Text) (symbols : List (List Text))
    → All (λ p. IsMissing p symbols) parts
    → prefix_of parts symbols ≡ []
unfolding prefix_of
prefix_of-nil [] [] a = refl
prefix_of-nil (p ∷ parts) [] a = absurd a.0
prefix_of-nil parts (other ∷ symbols) a = prefix_of-nil (common_parts parts other) symbols (
    All-map (λ p. IsMissing p (other ∷ symbols) × (has p other ≡ true)) (λ p. IsMissing p symbols)
      (common_parts parts other) (λ p h. still p h.0 h.1)
      (common_parts-has (λ p. IsMissing p (other ∷ symbols)) parts other a))
  where
    still : (p : Text) → IsMissing p (other ∷ symbols) → has p other ≡ true → IsMissing p symbols
    still p (inl n) h = absurd (false≢true (sym n ∙ h))
    still p (inr m) h = m

-- What remains of a name, a part at least, with the enumeration's value
pub record Entry : Type 0 where
  pub part : Text
  pub parts : List Text
  pub number : ℤ

abbrev pub rest_parts : Entry → List Text
rest_parts e = e.part ∷ e.parts

abbrev pub IsEntry : Entry → Type 0
IsEntry e = IsPart b'_' e.part × All (IsPart b'_') e.parts

-- The enumeration's item with the given parts before the rest of its name
abbrev pub item_of : List Text → Entry → Text × ℤ
item_of same e = (join b'_' (same ++ rest_parts e), e.number)

abbrev pub items_of : List Text → List Entry → List (Text × ℤ)
items_of same entries = map (λ e. item_of same e) entries

All-append :
    (same parts : List Text)
    → All (IsPart b'_') same
    → All (IsPart b'_') parts
    → All (IsPart b'_') (same ++ parts)
All-append [] parts a h = h
All-append (x ∷ same) parts a h = (a.0, All-append same parts a.1 h)

split-item :
    (same : List Text) (e : Entry)
    → All (IsPart b'_') same
    → IsEntry e
    → split b'_' (item_of same e).0 ≡ same ++ rest_parts e
split-item [] e a h = split-join b'_' e.part e.parts h.0 h.1
split-item (x ∷ same) e a h =
    split-join b'_' x (same ++ rest_parts e) a.0 (All-append same (rest_parts e) a.1 h)

split-items :
    (same : List Text) (entries : List Entry)
    → All (IsPart b'_') same
    → All IsEntry entries
    → map (λ s. split b'_' s) (map (λ i. i.0) (items_of same entries))
      ≡ map (λ parts. same ++ parts) (map (λ e. rest_parts e) entries)
split-items same [] a h = refl
split-items same (e ∷ entries) a h =
    ap₂ ◌∷◌ (split-item same e a h.0) (split-items same entries a h.1)

drop-items :
    (same : List Text) (entries : List Entry)
    → map (λ i. (drop (parts_length same) i.0, i.1)) (items_of same entries) ≡ items_of [] entries
drop-items same [] = refl
drop-items same (e ∷ entries) =
    ap₂ ◌∷◌ (ap (λ t. (t, e.number)) (drop-join b'_' same e.part e.parts)) (drop-items same entries)

-- Names of an enumeration that all begin with the same parts lose exactly these, and keep their
-- numbers, if every further part of the first name is missing from the rest of some other name. No
-- part contains an underscore, and every name has a part after the same ones.
pub native_items-strips :
    (same : List Text) (first : Entry) (others : List Entry)
    → All (IsPart b'_') same
    → All IsEntry (first ∷ others)
    → All (λ p. IsMissing p (map (λ e. rest_parts e) others)) (rest_parts first)
    → native_items (items_of same (first ∷ others)) true ≡ items_of [] (first ∷ others)
unfolding native_items common_prefix
native_items-strips same first others a h m =
    let symbols = map (λ e. rest_parts e) others in
    let parts : prefix_of (split b'_' (item_of same first).0)
          (map (λ s. split b'_' s) (map (λ i. i.0) (items_of same others)))
        ≡ same =
      ap₂ prefix_of (split-item same first a h.0) (split-items same others a h.1)
      ∙ prefix_of-append same (rest_parts first) symbols
      ∙ ap (λ l. same ++ l) (prefix_of-nil (rest_parts first) symbols m)
      ∙ append-nil same in
    ap (λ l. map (λ i. (drop (parts_length l) i.0, i.1)) (items_of same (first ∷ others))) parts
    ∙ drop-items same (first ∷ others)
