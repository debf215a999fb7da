-- ===== src/Settings/Merge/Again.antt =====
-- Merging the same settings in again.
use text.Mathlib.TextPositions.{eq_refl}
use common_core.Base.{String, ◌≡◌, refl, ap, ◌∙◌, ◌⊎◌, inl, inr, Option, none, some, eq_iff, arith}
use common_core.Settings.Variant.{Variant, null, dict, Fields, end, field}
use common_core.Settings.Fields.{get, put_self, WellKeyed, Keyed}
use common_core.Settings.Merge.{merge, merge_value, assign}
use common_core.Settings.Merge.Pointwise.{resolve, get-merge}

-- No round of the loop over `u` changes `d`.
abbrev Absorbs : Fields → Fields → Type 0
Absorbs d end = Unit
Absorbs d (field k v u) = (assign k (merge_value (get k d) v) d ≡ d) × Absorbs d u

merge-absorbed : (d u : Fields) → Absorbs d u → merge d u ≡ d
unfolding merge
merge-absorbed d end h = refl
merge-absorbed d (field k v u) h = rw h.0 (merge-absorbed d u h.1)

-- `d` has what a merge of `u` into `base` resolves to.
abbrev Resolved : Fields → Fields → Fields → Type 0
Resolved d base u =
    (k : String) (v : Variant) → get k u ≡ some v → get k d ≡ resolve (get k base) (some v)

Resolved-tail :
    (d base : Fields) (k : String) (v : Variant) (u : Fields)
    → Keyed (field k v u)
    → Resolved d base (field k v u)
    → Resolved d base u
unfolding get
Resolved-tail d base k v u h r j w e = ground (arith, eq_iff k j, r j w)

-- A second update by `v` of what a first one left changes nothing.
abbrev Settled : Option Variant → Variant → Type 0
Settled none v = ⊥
Settled (some w) v = (merge_value (some w) v ≡ none) ⊎ (merge_value (some w) v ≡ some w)

assign-Settled :
    (k : String) (d : Fields) (o : Option Variant) (v : Variant)
    → get k d ≡ o
    → Settled o v
    → assign k (merge_value (get k d) v) d ≡ d
assign-Settled k d none v e s = absurd s
assign-Settled k d (some w) v e (inl p) = rw (e, p)
assign-Settled k d (some w) v e (inr p) = rw (e, p) (put_self k w d e)

mutual
  unfolding merge get

  absorbs : (d base u : Fields) → Keyed u → Resolved d base u → Absorbs d u
  absorbs d base end h r = tt
  absorbs d base (field k v u) h r = (
    assign-Settled k d _ v (r k v (rw eq_refl)) (settles (get k base) v h.1),
    absorbs d base u h.2 (Resolved-tail d base k v u h r),
  )

  settles : (o : Option Variant) (v : Variant) → WellKeyed v → Settled (resolve o (some v)) v
  settles none null h = inr refl
  settles (some null) null h = inr refl
  settles (some _) null h = inl refl
  settles none (dict u) h =
      inr (ap (λ d. some (dict d)) (merge-absorbed u u (absorbs u end u h (λ k v e. e))))
  settles (some null) (dict u) h =
      inr (ap (λ d. some (dict d)) (merge-absorbed u u (absorbs u end u h (λ k v e. e))))
  settles (some (dict b)) (dict u) h = inr (
      ap (λ d. some (dict d))
        (merge-absorbed (merge b u) u
          (absorbs (merge b u) b u h (λ k v e. get-merge k b u h ∙ ap (resolve (get k b)) e))))
  settles (some _) (dict u) h = inl refl
  settles none v h = inl refl
  settles (some null) v h = inl refl
  settles (some (dict b)) v h = inl refl
  settles (some _) v h = inl refl

-- Merging the same settings in twice, with dictionaries that hold a key once, is merging them in
-- once.
merge_idempotent :
    (base update : Fields) → Keyed update → merge (merge base update) update ≡ merge base update
merge_idempotent b u h =
    merge-absorbed (merge b u) u
      (absorbs (merge b u) b u h (λ k v e. get-merge k b u h ∙ ap (resolve (get k b)) e))
