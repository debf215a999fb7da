-- ===== src/Settings/Merge.antt =====
-- `_recursive_merge` of src/core/python/core/settingsstore/settingsstore.py.
pub mod Pointwise
pub mod Paths
pub mod Again
use common_core.Base.{String, ◌≡◌, refl, Option, none, some, str_eq, eq_iff, if◌then◌else◌, arith}
use common_core.Settings.Variant.{
  Variant, null, bool, int, float, str, list, dict, Fields, end, field,
}
use common_core.Settings.Fields.{get, put, get-put}

-- `base[key] = value` where the branch of the loop assigns, nothing where it does not.
abbrev assign : String → Option Variant → Fields → Fields
assign k none d = d
assign k (some v) d = put k v d

-- `_recursive_merge(base, update)`, and what one round of its loop writes to `base[key]`: a
-- dictionary merged in place, a value for a missing or null entry, or nothing.
unfoldable mutual
  pub merge : Fields → Fields → Fields
  merge base end = base
  merge base (field key value update) =
      merge (assign key (merge_value (get key base) value) base) update

  pub merge_value : Option Variant → Variant → Option Variant
  merge_value none value = some value
  merge_value (some null) value = some value
  merge_value (some (dict b)) (dict u) = some (dict (merge b u))
  merge_value (some _) _ = none
