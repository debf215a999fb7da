-- ===== src/Settings/Access/Assignment.antt =====
-- Where `set` stores a value.
use text.Mathlib.TextPositions.{eq_refl}
use common_core.Base.Result.{ok, raised}
use common_core.Base.{
  String, ◌≡◌, ◌≢◌, refl, ap, ◌∙◌, Option, none, some, List, [], ◌∷◌, ◌++◌, All, eq_iff, arith,
}
use common_core.Settings.Variant.{Variant, dict, Fields, end, field}
use common_core.Settings.Fields.{get, put, get-put, at}
use common_core.Settings.Access.{value_error, set_in, hierarchical, pop_last, set_value}

abbrev IsDict : Option Variant → Type 0
IsDict (some (dict d)) = Unit
IsDict _ = ⊥

-- The dictionaries that hold `v` at the path `p ++ k ∷ []` and nothing else.
abbrev pub nested : List String → String → Variant → Fields
nested [] k v = field k v end
nested (e ∷ p) k v = field e (dict (nested p k v)) end

set_in-end : (p : List String) (k : String) (v : Variant) → set_in end p k v ≡ nested p k v
unfolding set_in get put
set_in-end [] k v = refl
set_in-end (e ∷ p) k v = ap (λ d. field e (dict d) end) (set_in-end p k v)

IsDict-eq : (o : Option Variant) → IsDict o → (d : Fields) × (o ≡ some (dict d))
IsDict-eq (some (dict d)) h = (d, refl)
IsDict-eq none h = absurd h
IsDict-eq (some _) h = absurd h

-- The loop ignores the components that name dictionaries of the object where it stands.
set_skips :
    (d : Fields) (found : List String) (k : String) (v : Variant)
    → All (λ e. IsDict (get e d)) found
    → set_in d found k v ≡ put k v d
unfolding set_in
set_skips d [] k v h = refl
set_skips d (e ∷ found) k v h =
    let (_, q) = IsDict-eq (get e d) h.0 in rw (q, set_in) (set_skips d found k v h.1)

set_creates :
    (o : Option Variant) (d : Fields) (e : String) (p : List String) (k : String) (v : Variant)
    → get e d ≡ o
    → ¬ IsDict o
    → set_in d (e ∷ p) k v ≡ put e (dict (nested p k v)) d
unfolding set_in
set_creates none d e p k v q h = rw (q, set_in) (ap (λ n. put e (dict n) d) (set_in-end p k v))
set_creates (some (dict c)) d e p k v q h = absurd (h tt)
set_creates (some _) d e p k v q h = rw (q, set_in) (ap (λ n. put e (dict n) d) (set_in-end p k v))

get-put_self : (k : String) (v : Variant) (d : Fields) → get k (put k v d) ≡ some v
get-put_self k v d = simp (get-put, eq_refl)

get-first : (e : String) (v : Variant) → get e (field e v end) ≡ some v
unfolding get
get-first e v = rw eq_refl

at-nested :
    (p : List String) (k : String) (v : Variant)
    → at (some (dict (nested p k v))) (p ++ k ∷ []) ≡ some v
unfolding at get
at-nested [] k v = rw eq_refl
at-nested (e ∷ p) k v =
    ap (λ o. at o (p ++ k ∷ [])) (get-first e (dict (nested p k v))) ∙ at-nested p k v

pop_last-append : (p : List String) (k : String) → pop_last (p ++ k ∷ []) ≡ some (p, k)
unfolding pop_last
pop_last-append [] k = refl
pop_last-append (i ∷ []) k = refl
pop_last-append (i ∷ j ∷ p) k =
    ap (λ o. elim o [ none ↦ none | some (q, l) ↦ some (i ∷ q, l) ]) (pop_last-append (j ∷ p) k)

set_value_path :
    (store : Fields) (p : List String) (k : String) (value : Variant)
    → set_value store (hierarchical (p ++ k ∷ [])) value ≡ ok (set_in store p k value)
unfolding set_value
set_value_path store p k value =
    ap (λ o. elim o [ none ↦ raised value_error | some (path, j) ↦ ok (set_in store path j value) ])
      (pop_last-append p k)

module _ (store : Fields) (e : String) (p : List String) (k : String) (value : Variant) where
  -- If the first component names no dictionary, then `set` stores the value where the path with the
  -- key leads, and nothing else changes at the root of the store.
  pub set_stores :
      ¬ IsDict (get e store)
      → (s : Fields) × (set_value store (hierarchical (e ∷ p ++ k ∷ [])) value ≡ ok s)
        × (at (some (dict s)) (e ∷ p ++ k ∷ []) ≡ some value)
        × ((j : String) → j ≢ e → get j s ≡ get j store)
  unfolding at
  set_stores h =
      let q = set_creates (get e store) store e p k value refl h in
      (
        set_in store (e ∷ p) k value,
        set_value_path store (e ∷ p) k value,
        ap (λ s. at (get e s) (p ++ k ∷ [])) q
            ∙ ap (λ o. at o (p ++ k ∷ [])) (get-put_self e (dict (nested p k value)) store)
            ∙ at-nested p k value,
        λ j ne. rw q (ground (arith, get-put j e (dict (nested p k value)) store, eq_iff e j)),
      )

  -- If every component names a dictionary at the root of the store, and the key is not the first
  -- component, then `set` stores the value under the key at the root, and what the path with the
  -- key leads to stays as it was.
  set_misplaces :
      All (λ c. IsDict (get c store)) (e ∷ p)
      → k ≢ e
      → (s : Fields) × (set_value store (hierarchical (e ∷ p ++ k ∷ [])) value ≡ ok s)
        × (get k s ≡ some value)
        × (at (some (dict s)) (e ∷ p ++ k ∷ []) ≡ at (some (dict store)) (e ∷ p ++ k ∷ []))
  unfolding at
  set_misplaces h ne =
      let q = set_skips store (e ∷ p) k value h in
      let kept : get e (put k value store) ≡ get e store =
        ground (arith, get-put e k value store, eq_iff k e) in
      (
        set_in store (e ∷ p) k value,
        set_value_path store (e ∷ p) k value,
        ap (get k) q ∙ get-put_self k value store,
        ap (λ s. at (get e s) (p ++ k ∷ [])) q ∙ ap (λ o. at o (p ++ k ∷ [])) kept,
      )
