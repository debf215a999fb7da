-- ===== src/Settings/Delta/Restore.antt =====
-- What comes back when a saved delta is loaded ahead of the defaults.
use mathlib.Core.Path.{subst}
use common_core.Base.{
  String, ◌≡◌, refl, sym, ap, ◌∙◌, ◌⊎◌, inl, inr, true, false, Bool-cases, Option, none, some, List,
  [], ◌∷◌, str_eq, eq_iff, if◌then◌else◌, arith,
}
use common_core.Settings.Variant.{Variant, null, dict, Fields, end, field}
use common_core.Settings.Fields.{get, py_eq, WellKeyed?, WellKeyed-get, Keyed, child, at, at-none}
use common_core.Settings.Merge.{merge}
use common_core.Settings.Merge.Pointwise.{resolve, get-merge}
use common_core.Settings.Merge.Paths.{IsLeaf, IsLeaf?}
use common_core.Settings.Delta.{delta, delta_value, cons_some, nonempty, or_null, unless_eq}

abbrev pub differ : Option Variant → Option Variant → Option Variant
differ none o = none
differ (some v) o = delta_value v o

or_else : Option Variant → Option Variant → Option Variant
or_else none d = d
or_else (some v) d = some v

or_else-none : (o : Option Variant) {d : Option Variant} → d ≡ none → or_else o d ≡ o
unfolding or_else
or_else-none none h = h
or_else-none (some v) h = refl

get-cons_some :
    (j k : String) (o : Option Variant) (d : Fields)
    → get j (cons_some k o d) ≡ (if str_eq k j then or_else o (get j d) else get j d)
unfolding get or_else
get-cons_some j k none d = ground (arith, eq_iff k j)
get-cons_some j k (some v) d = refl

pub get-delta :
    (k : String) (c b : Fields) → Keyed c → get k (delta c b) ≡ differ (get k c) (get k b)
unfolding get delta
get-delta k end b h = refl
get-delta k (field j v c) b h = rw get-cons_some (elim (Bool-cases (str_eq j k)) [
  | inl e ↦
      rw (e, ← (eq_iff j k).0 e)
        (or_else-none (delta_value v (get j b))
          (get-delta j c b h.2 ∙ ap (λ o. differ o (get j b)) h.0))
  | inr e ↦ rw e (get-delta k c b h.2)
])

-- The value itself, or one that Python holds equal to it.
abbrev pub Same : Variant → Variant → Type 0
Same v w = (v ≡ w) ⊎ (py_eq v w ≡ true)

delta_value-leaf : (v : Variant) (o : Option Variant) → IsLeaf v → delta_value v o ≡ unless_eq v o
unfolding delta
delta_value-leaf null o l = absurd l
delta_value-leaf (dict d) o l = absurd l
delta_value-leaf v o l = refl

py_eq-null : (v : Variant) → IsLeaf v → py_eq v null ≡ false
unfolding py_eq
py_eq-null null l = absurd l
py_eq-null (dict d) l = absurd l
py_eq-null _ l = refl

resolve-leaf : (v : Variant) (o : Option Variant) → IsLeaf v → resolve (some v) o ≡ some v
unfolding merge
resolve-leaf v none l = refl
resolve-leaf null (some w) l = absurd l
resolve-leaf (dict d) (some w) l = absurd l
resolve-leaf _ (some w) l = refl

resolve-none : (o : Option Variant) → resolve none o ≡ o
unfolding merge
resolve-none none = refl
resolve-none (some v) = refl

-- What is loaded at a path in the place of `v`.
abbrev pub Restored : Variant → Option Variant → Type 0
Restored v o = (w : Variant) × (o ≡ some w) × Same v w

restore_leaf :
    (v : Variant) (o : Option Variant) → IsLeaf v → Restored v (resolve (delta_value v o) o)
restore_leaf v o l = elim (Bool-cases (py_eq v (or_null o))) [
  | inl e ↦ equal o e
  | inr e ↦ (v, rw (delta_value-leaf v o l, e) (resolve-leaf v o l), inl refl)
]
  where
    equal :
        (o : Option Variant) → py_eq v (or_null o) ≡ true → Restored v (resolve (delta_value v o) o)
    equal none e = cc (py_eq-null v l)
    equal (some w) e = (w, rw (delta_value-leaf v (some w) l, e) (resolve-none (some w)), inr e)

child-restore :
    (k : String) (d b : Fields)
    → Keyed b
    → child k (resolve (nonempty d) (some (dict b))) ≡ resolve (get k d) (get k b)
unfolding merge get
child-restore k end b h = sym (resolve-none (get k b))
child-restore k (field j v d) b h = get-merge k (field j v d) b h

restore_at :
    (p : List String) (o b : Option Variant) {v : Variant}
    → WellKeyed? o
    → WellKeyed? b
    → at o p ≡ some v
    → IsLeaf v
    → Restored v (at (resolve (differ o b) b) p)
unfolding at delta merge py_eq
restore_at [] none b x y h l = cc
restore_at [] (some c) b {v} x y h l =
    subst (λ o. Restored v (resolve (differ o b) b)) (sym h) (restore_leaf v b l)
restore_at (k ∷ p) (some (dict c)) none {v} x y h l = (v, h, inl refl)
restore_at (k ∷ p) (some (dict c)) (some (dict b)) {v} x y h l =
    subst (λ o. Restored v (at o p))
      (sym (child-restore k (delta c b) b y ∙ ap (λ o. resolve o (get k b)) (get-delta k c b x)))
      (restore_at p (get k c) (get k b) (WellKeyed-get k c x) (WellKeyed-get k b y) h l)
restore_at (k ∷ p) (some (dict c)) (some w) {v} x y h l = (v, h, inl refl)
restore_at (k ∷ p) none b x y h l = cc (at-none p)
restore_at (k ∷ p) (some o) b x y h l = cc (at-none p)

resolve-null : (o : Option Variant) → resolve (delta_value null o) o ≡ o
unfolding merge delta py_eq
resolve-null none = refl
resolve-null (some null) = refl
resolve-null (some _) = refl

module _ (complete defaults : Fields) where
  get-merge-delta :
      (k : String)
      → Keyed complete
      → Keyed defaults
      → get k (merge (delta complete defaults) defaults)
        ≡ resolve (differ (get k complete) (get k defaults)) (get k defaults)
  get-merge-delta k x y =
      get-merge k (delta complete defaults) defaults y
      ∙ ap (λ o. resolve o (get k defaults)) (get-delta k complete defaults x)

  -- Where all dictionaries hold a key once, every setting that is neither null nor a dictionary
  -- comes back as it was, or as a value that Python holds equal, when the defaults are merged into
  -- the delta to them.
  pub delta_restores :
      (p : List String) {v : Variant}
      → Keyed complete
      → Keyed defaults
      → at (some (dict complete)) p ≡ some v
      → IsLeaf v
      → Restored v (at (some (dict (merge (delta complete defaults) defaults))) p)
  unfolding at
  delta_restores [] {v} x y h l = absurd (subst IsLeaf? (sym h) l)
  delta_restores (k ∷ p) {v} x y h l =
      subst (λ o. Restored v (at o p)) (sym (get-merge-delta k x y))
        (restore_at p (get k complete) (get k defaults) (WellKeyed-get k complete x)
          (WellKeyed-get k defaults y) h l)

  -- Where all dictionaries hold a key once, a setting at the top that was removed, or set to null,
  -- has its default when the defaults are merged into the delta to them.
  delta_forgets :
      (k : String)
      → Keyed complete
      → Keyed defaults
      → (get k complete ≡ none) ⊎ (get k complete ≡ some null)
      → get k (merge (delta complete defaults) defaults) ≡ get k defaults
  delta_forgets k x y (inl h) =
      get-merge-delta k x y
      ∙ ap (λ o. resolve (differ o (get k defaults)) (get k defaults)) h
      ∙ resolve-none (get k defaults)
  delta_forgets k x y (inr h) =
      get-merge-delta k x y
      ∙ ap (λ o. resolve (differ o (get k defaults)) (get k defaults)) h
      ∙ resolve-null (get k defaults)
