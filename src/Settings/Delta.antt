-- ===== src/Settings/Delta.antt =====
-- `_recursive_delta` of src/core/python/core/settingsstore/settingsstore.py.
pub mod Restore
use common_core.Base.{String, Bool, true, false, Option, none, some, if◌then◌else◌}
use common_core.Settings.Variant.{
  Variant, null, bool, int, float, str, list, dict, Fields, end, field,
}
use common_core.Settings.Fields.{get, py_eq}

-- A dictionary without entries is false.
abbrev pub nonempty : Fields → Option Variant
nonempty end = none
nonempty (field k v d) = some (dict (field k v d))

-- `basevalue`: `None` for a missing key
abbrev pub or_null : Option Variant → Variant
or_null none = null
or_null (some v) = v

abbrev pub cons_some : String → Option Variant → Fields → Fields
cons_some k none d = d
cons_some k (some v) d = field k v d

-- A value that is not compared entry by entry: `value != basevalue`.
abbrev pub unless_eq : Variant → Option Variant → Option Variant
unless_eq v o = if py_eq v (or_null o) then none else some v

-- `_recursive_delta(complete, base)`, and what one round of its loop writes to `delta[key]`.
unfoldable mutual
  pub delta : Fields → Fields → Fields
  delta end base = end
  delta (field key value complete) base =
      cons_some key (delta_value value (get key base)) (delta complete base)

  pub delta_value : Variant → Option Variant → Option Variant
  delta_value (dict c) (some (dict b)) = nonempty (delta c b)
  delta_value value basevalue = unless_eq value basevalue
