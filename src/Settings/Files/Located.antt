-- ===== src/Settings/Files/Located.antt =====
-- Which files a name stands for.
use common_core.Base.{◌≡◌, ◌⊎◌, List, [], ◌∷◌}

abbrev pub In : {A : Type 0} → A → List A → Type 0
In x [] = ⊥
In x (y ∷ ys) = (y ≡ x) ⊎ In x ys
