-- ===== src/Settings/Merge/Pointwise.antt =====
-- What `_recursive_merge` leaves under each key.
use common_core.Base.{String, ◌≡◌, refl, Option, none, some, str_eq, eq_iff, if◌then◌else◌, arith}
use common_core.Settings.Variant.{Variant, Fields, end, field}
use common_core.Settings.Fields.{get, get-put, Keyed}
use common_core.Settings.Merge.{merge, merge_value, assign}

-- The value under a key once an update of that key is merged in.
abbrev pub resolve : Option Variant → Option Variant → Option Variant
resolve base none = base
resolve base (some v) = elim (merge_value base v) [ none ↦ base | some w ↦ some w ]

get-assign :
    (j k : String) (o : Option Variant) (d : Fields)
    → get j (assign k o d)
      ≡ (if str_eq k j then elim o [ none ↦ get j d | some v ↦ some v ] else get j d)
get-assign j k none d = ground arith
get-assign j k (some v) d = get-put j k v d

pub get-merge :
    (k : String) (base u : Fields) → Keyed u → get k (merge base u) ≡ resolve (get k base) (get k u)
unfolding merge get
get-merge k base end h = refl
get-merge k base (field j v u) h =
    let base' = assign j (merge_value (get j base) v) base in
    ground
      (arith, eq_iff j k, get-assign k j (merge_value (get j base) v) base, get-merge k base' u h.2)
