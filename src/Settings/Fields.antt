-- ===== src/Settings/Fields.antt =====
-- The dictionaries of settings, in insertion order, and Python's `==` of settings values.
use common_core.Base.{
  ℕ, suc, String, List, [], ◌∷◌, ◌≡◌, refl, Bool, true, false, ◌&&◌, Option, none, some, str_eq,
  eq_iff, nat_eq, if◌then◌else◌, arith,
}
use common_core.Settings.Variant.{
  Variant, null, bool, int, float, str, list, dict, Items, nil, item, Fields, end, field,
}
use common_core.Settings.Number.{numeric_eq}

-- d.get(k), with `none` for a missing key
unfoldable pub get : String → Fields → Option Variant
get k end = none
get k (field j v d) = let rest = get k d in if str_eq j k then some v else rest

-- d[k] = v
unfoldable pub put : String → Variant → Fields → Fields
put k v end = field k v end
put k v (field j w d) = let rest = put k v d in if str_eq j k then field j v d else field j w rest

unfoldable pub has_key : String → Fields → Bool
has_key k d = elim (get k d) [ none ↦ false | some v ↦ true ]

-- len(d)
unfoldable pub size : Fields → ℕ
size end = 0
size (field k v d) = suc (size d)

abbrev is_null : Variant → Bool
is_null v = elim v [ null ↦ true | _ ↦ false ]

abbrev is_str : String → Variant → Bool
is_str s v = elim v [ str t ↦ str_eq s t | _ ↦ false ]

-- `x == y`, `xs == ys` for lists, and the entries of one dictionary among those of another.
unfoldable mutual
  unfolding numeric_eq get size

  pub py_eq : Variant → Variant → Bool
  py_eq null y = is_null y
  py_eq (bool b) y = numeric_eq (bool b) y
  py_eq (int n) y = numeric_eq (int n) y
  py_eq (float b) y = numeric_eq (float b) y
  py_eq (str s) y = is_str s y
  py_eq (list xs) y = elim y [ list ys ↦ eq_items xs ys | _ ↦ false ]
  py_eq (dict d) y = elim y [ dict e ↦ nat_eq (size d) (size e) && eq_fields d e | _ ↦ false ]

  pub eq_items : Items → Items → Bool
  eq_items nil ys = elim ys [ nil ↦ true | item _ _ ↦ false ]
  eq_items (item x xs) ys = elim ys [ nil ↦ false | item y ys' ↦ py_eq x y && eq_items xs ys' ]

  pub eq_fields : Fields → Fields → Bool
  eq_fields end e = true
  eq_fields (field k v d) e = elim (get k e) [ none ↦ false | some w ↦ py_eq v w ] && eq_fields d e

pub get-put :
    (j k : String) (v : Variant) (d : Fields)
    → get j (put k v d) ≡ (if str_eq k j then some v else get j d)
unfolding get put
get-put j k v end = refl
get-put j k v (field i w d) = ground (arith, eq_iff k j, eq_iff i k, eq_iff i j, get-put j k v d)

pub put_self : (k : String) (v : Variant) (d : Fields) → get k d ≡ some v → put k v d ≡ d
unfolding get put
put_self k v end h = cc
put_self k v (field i w d) h = ground (arith, put_self k v d)

-- Python dictionaries hold a key once: in `d`, and in the dictionaries below it.
abbrev mutual
  pub WellKeyed : Variant → Type 0
  WellKeyed (dict d) = Keyed d
  WellKeyed _ = Unit

  pub Keyed : Fields → Type 0
  Keyed end = Unit
  Keyed (field k v d) = (get k d ≡ none) × WellKeyed v × Keyed d

abbrev pub WellKeyed? : Option Variant → Type 0
WellKeyed? none = Unit
WellKeyed? (some v) = WellKeyed v

pub WellKeyed-get : (k : String) (d : Fields) → Keyed d → WellKeyed? (get k d)
unfolding get
WellKeyed-get k end h = tt
WellKeyed-get k (field j v d) h =
    elim (str_eq j k) as (λ b. WellKeyed? (if b then some v else get k d)) [
      | true ↦ h.1
      | false ↦ WellKeyed-get k d h.2
    ]

-- v.get(k) for a dictionary `v`, `none` for any other value
abbrev pub child : String → Option Variant → Option Variant
child k (some (dict d)) = get k d
child k _ = none

-- The value at a path of keys.
unfoldable pub at : Option Variant → List String → Option Variant
at v [] = v
at v (k ∷ p) = at (child k v) p

pub at-none : (p : List String) → at none p ≡ none
unfolding at
at-none [] = refl
at-none (k ∷ p) = at-none p
