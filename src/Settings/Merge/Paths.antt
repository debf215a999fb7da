-- ===== src/Settings/Merge/Paths.antt =====
-- What `_recursive_merge` leaves along each path of keys.
use common_core.Base.{String, ◌≡◌, refl, sym, ◌∙◌, Option, none, some, List, [], ◌∷◌}
use mathlib.Core.Path.{subst}
use common_core.Settings.Variant.{Variant, null, dict, Fields}
use common_core.Settings.Fields.{get, WellKeyed?, WellKeyed-get, Keyed, at, at-none}
use common_core.Settings.Merge.{merge}
use common_core.Settings.Merge.Pointwise.{resolve, get-merge}

-- A setting that no update replaces or extends: neither null nor a dictionary.
abbrev pub IsLeaf : Variant → Type 0
IsLeaf null = ⊥
IsLeaf (dict d) = ⊥
IsLeaf _ = Unit

abbrev pub IsLeaf? : Option Variant → Type 0
IsLeaf? none = Unit
IsLeaf? (some v) = IsLeaf v

-- A path that an update may fill in: nothing above it, nor at it, is set to anything but null or,
-- above it, a dictionary.
abbrev pub IsOpen : Option Variant → List String → Type 0
IsOpen none p = Unit
IsOpen (some null) p = Unit
IsOpen (some (dict d)) (k ∷ p) = IsOpen (get k d) p
IsOpen (some _) _ = ⊥

-- No path goes on below a value that is no dictionary.
dead-end {ℓ} : {A : Type ℓ} (p : List String) {v : Variant} → at none p ≡ some v → A
dead-end p h = cc (at-none p)

precedence_at :
    (p : List String) (o u : Option Variant) {v : Variant}
    → WellKeyed? u
    → at o p ≡ some v
    → IsLeaf v
    → at (resolve o u) p ≡ some v
unfolding at merge
precedence_at [] none u w h l = cc
precedence_at [] (some b) none w h l = h
precedence_at [] (some null) (some u) {v} w h l = absurd (subst IsLeaf? (sym h) l)
precedence_at [] (some (dict b)) (some u) {v} w h l = absurd (subst IsLeaf? (sym h) l)
precedence_at [] (some _) (some _) w h l = h
precedence_at (k ∷ p) (some (dict b)) (some (dict u)) w h l =
    rw (get-merge k b u w) (precedence_at p (get k b) (get k u) (WellKeyed-get k u w) h l)
precedence_at (k ∷ p) (some b) none w h l = h
precedence_at (k ∷ p) (some (dict b)) (some _) w h l = h
precedence_at (k ∷ p) none u w h l = dead-end p h
precedence_at (k ∷ p) (some _) u w h l = dead-end p h

fill_at :
    (p : List String) (o u : Option Variant) {v : Variant}
    → WellKeyed? u
    → IsOpen o p
    → at u p ≡ some v
    → at (resolve o u) p ≡ some v
unfolding at merge
fill_at p none none w h e = e
fill_at p none (some u) w h e = e
fill_at p (some null) none w h e = cc (at-none p)
fill_at p (some null) (some u) w h e = e
fill_at (k ∷ p) (some (dict b)) (some (dict u)) w h e =
    rw (get-merge k b u w) (fill_at p (get k b) (get k u) (WellKeyed-get k u w) h e)
fill_at (k ∷ p) (some (dict b)) _ w h e = cc (at-none p)
fill_at p (some b) u w h e = absurd h

elsewhere_at :
    (p : List String) (o u : Option Variant)
    → WellKeyed? u
    → at u p ≡ none
    → at (resolve o u) p ≡ at o p
unfolding at merge
elsewhere_at p none none w e = refl
elsewhere_at p none (some u) w e = e ∙ sym (at-none p)
elsewhere_at p (some b) none w e = refl
elsewhere_at [] (some b) (some u) w e = cc
elsewhere_at (k ∷ p) (some null) (some u) w e = e ∙ sym (at-none p)
elsewhere_at (k ∷ p) (some (dict b)) (some (dict u)) w e =
    rw (get-merge k b u w) (elsewhere_at p (get k b) (get k u) (WellKeyed-get k u w) e)
elsewhere_at p (some _) (some _) w e = refl

module _ (base update : Fields) (p : List String) where
  -- Merging in settings, whose dictionaries hold a key once, changes no setting that is there
  -- already, at any path: if the path leads to a value other than null and a dictionary, it leads
  -- to that value after the merge.
  pub merge_precedence :
      {v : Variant}
      → Keyed update
      → at (some (dict base)) p ≡ some v
      → IsLeaf v
      → at (some (dict (merge base update))) p ≡ some v
  unfolding merge
  merge_precedence keyed h leaf =
      precedence_at p (some (dict base)) (some (dict update)) keyed h leaf

  -- Merging in settings, whose dictionaries hold a key once, adds every new setting: where nothing
  -- stands above or at a path of the update but dictionaries above it or a null, the path leads to
  -- the update's value afterwards.
  pub merge_fills :
      {v : Variant}
      → Keyed update
      → IsOpen (some (dict base)) p
      → at (some (dict update)) p ≡ some v
      → at (some (dict (merge base update))) p ≡ some v
  unfolding merge
  merge_fills keyed open_path h =
      fill_at p (some (dict base)) (some (dict update)) keyed open_path h

  -- Merging in settings, whose dictionaries hold a key once, leaves alone what every path leads to
  -- that the update does not have.
  merge_elsewhere :
      Keyed update
      → at (some (dict update)) p ≡ none
      → at (some (dict (merge base update))) p ≡ at (some (dict base)) p
  unfolding merge
  merge_elsewhere keyed h = elsewhere_at p (some (dict base)) (some (dict update)) keyed h
