-- ===== src/Settings/Variant.antt =====
-- The values of a settings file: `Variant` of src/core/python/core/settingsstore/settingsstore.py.
use common_core.Base.{ℕ, String, Bool}
use common_core.Base.Int.{ℤ}

-- A `float` is its 64-bit pattern.
mutual
  pub data Variant : Type 0 where
    null : Variant
    bool : Bool → Variant
    int : ℤ → Variant
    float : ℕ → Variant
    str : String → Variant
    list : Items → Variant
    dict : Fields → Variant

  pub data Items : Type 0 where
    nil : Items
    item : Variant → Items → Items

  pub data Fields : Type 0 where
    end : Fields
    field : String → Variant → Fields → Fields
