-- ===== src/Signals/Caching/Mapping/Sync.antt =====
-- `emit_map_update` brings the cache in line with a map.
use common_core.Base.Result.{ok, raised}
use common_core.Base.{
  String, ◌≡◌, ◌≢◌, refl, sym, ap, ◌∙◌, inl, inr, Bool-cases, Option-cases, Bool, true, false,
  Option, none, some, [], ◌∷◌, All, str_eq, eq_iff, if◌then◌else◌, arith, Eq, eq_option, eq_string,
  option_beq, option_beq_reflects,
}
use common_core.Base.Dict.{Dict, get, map_values, get-map_values, Unique}
use common_core.Signals.Message.{removal, Descriptor, mapping_controls, make_message}
use common_core.Signals.Store.{Result}
use common_core.Signals.Caching.{Key, CachingStore, map_of, messages_of}
use common_core.Signals.Caching.History.{cached, cached-emit}
use common_core.Signals.Message.{contains, signal_names}
use common_core.Signals.Caching.{is_field}
use common_core.Signals.Caching.Mapping.{
  field_of, get_cached_map, emit_mapping, is_kept, or_current, remove_missing, emit_updated,
  emit_map_update,
}
use common_core.Signals.Caching.Mapping.Derived.{signal_name-make, read, read-emit_mapping}

-- A key under which messages can be cached: none, or a text that is not empty.
abbrev pub IsKey : Key → Type 0
IsKey none = Unit
IsKey (some k) = k ≢ ""

module _ {V : Type 0} where
  controls-removal :
      (name : String) (key : Key) (v : Option V)
      → IsKey key
      → mapping_controls (make_message name key v removal) ≡ (removal, key)
  unfolding mapping_controls make_message
  controls-removal name none v h = refl
  controls-removal name (some k) v h = ground (arith, eq_iff k "")

keep_if :
    {A : Type 0} (b c : Bool) (x : Option A)
    → (c ≡ true → b ≡ true)
    → (if b then x else (if c then none else x)) ≡ x
keep_if b c x h = ground arith

stay_none :
    {A : Type 0} (b c : Bool) (x : Option A)
    → x ≡ none
    → (if b then x else (if c then none else x)) ≡ none
stay_none b c x h = ground arith

module _ {V : Type 0} where
  -- What a reader finds in the store that an operation leaves.
  abbrev pub read_result : V → String → Key → Result (CachingStore V) → Result (Option V)
  read_result unset name key (raised e) = raised e
  read_result unset name key (ok s) = ok (read unset name (cached name key s))

absent_rest :
    {A : Type 0} (b : Bool) (x : A) (r : Option A)
    → (if b then some x else r) ≡ none
    → (b ≡ false) × (r ≡ none)
absent_rest true x r h = cc
absent_rest false x r h = (refl, h)

abbrev or_else : {A : Type 0} → Option A → Option A → Option A
or_else none o = o
or_else (some a) o = some a

or_else_if :
    {A : Type 0} (b : Bool) (v : A) (r o : Option A)
    → (b ≡ true → r ≡ none)
    → or_else r (if b then some v else o) ≡ or_else (if b then some v else r) o
or_else_if true v r o h = ap (λ r. or_else r (some v)) (h refl)
or_else_if false v r o h = refl

module _ {V : Type 0} ⦃e : Eq V⦄ (d : Descriptor) (arrive : CachingStore V → CachingStore V)
    (unset : V) (name : String) (named : name ≢ "") where
  -- An explicit removal, which is emitted with a value.
  cached-removal :
      (j key : Key) (v : V) (s : CachingStore V)
      → IsKey key
      → cached name j (emit_mapping d arrive unset name key (some v) (some removal) s)
        ≡ (if option_beq key j then none else cached name j s)
  unfolding emit_mapping
  cached-removal j key v s h =
      cached-emit name j (make_message name key (some v) removal) s
      ∙ rw (
        signal_name-make name key v removal named,
        controls-removal name key (some v) h,
        (eq_iff name name).1 refl,
      )

  module _ (updated : Dict String V) (empty : Option V) where
    abbrev removed : Dict Key V → CachingStore V → CachingStore V
    removed items s = remove_missing d arrive unset name updated empty items s

    one_removed :
        (j key : Key) (v : V) (s : CachingStore V)
        → IsKey key
        → cached name j (
            if is_kept key updated
            then s
            else emit_mapping d arrive unset name key (some v) (some removal) s)
          ≡ (if is_kept key updated
              then cached name j s
              else (if option_beq key j then none else cached name j s))
    one_removed j key v s h = elim (Bool-cases (is_kept key updated)) [
      | inl k ↦ rw k
      | inr k ↦ rw k (cached-removal j key v s h)
    ]

    -- The first loop keeps what the map has,
    cached-kept :
        (j : Key) (items : Dict Key V) (s : CachingStore V)
        → All (λ i. IsKey i.0) items
        → is_kept j updated ≡ true
        → cached name j (removed items s) ≡ cached name j s
    unfolding remove_missing
    cached-kept j [] s h k = refl
    cached-kept j ((key, v) ∷ items) s h k =
        cached-kept j items _ h.1 k
        ∙ one_removed j key (or_current empty v) s h.0
        ∙ keep_if (is_kept key updated) (option_beq key j) (cached name j s)
            (λ t. ap (λ i. is_kept i updated) ((option_beq_reflects key j).0 t) ∙ k)

    -- and removes every cached key that the map does not have.
    cached-gone :
        (j : Key) (items : Dict Key V) (s : CachingStore V)
        → All (λ i. IsKey i.0) items
        → cached name j s ≡ none
        → cached name j (removed items s) ≡ none
    unfolding remove_missing
    cached-gone j [] s h n = n
    cached-gone j ((key, v) ∷ items) s h n = cached-gone j items _ h.1 (
        one_removed j key (or_current empty v) s h.0
        ∙ stay_none (is_kept key updated) (option_beq key j) (cached name j s) n)

    cached-missing :
        (j : Key) (items : Dict Key V) (s : CachingStore V) (w : V)
        → All (λ i. IsKey i.0) items
        → is_kept j updated ≡ false
        → get j items ≡ some w
        → cached name j (removed items s) ≡ none
    unfolding remove_missing get
    cached-missing j [] s w h k n = cc
    cached-missing j ((key, v) ∷ items) s w h k n = elim (Bool-cases (option_beq key j)) [
      | inl t ↦ cached-gone j items _ h.1 (
          one_removed j key (or_current empty v) s h.0
          ∙ rw (ap (λ i. is_kept i updated) ((option_beq_reflects key j).0 t) ∙ k, t) refl)
      | inr f ↦ cached-missing j items _ w h.1 k (sym (rw f refl) ∙ n)
    ]

    -- A map without the key `""` has keys to cache under only.
    keys-IsKey :
        {W : Type 0} (items : Dict Key W) → get (some "") items ≡ none → All (λ i. IsKey i.0) items
    unfolding get
    keys-IsKey [] n = tt
    keys-IsKey ((none, w) ∷ items) n = (tt, keys-IsKey items n)
    keys-IsKey ((some k, w) ∷ items) n =
        let (differs, rest) = absent_rest (str_eq k "") w (get (some "") items) n in
        (ground (arith, eq_iff k ""), keys-IsKey items rest)

    -- The second loop gives every key the value of the map.
    read-emit_updated :
        (k : String) (items : Dict String V) (s : CachingStore V)
        → Unique items
        → All (λ i. i.0 ≢ "") items
        → read unset name (cached name (some k) (emit_updated d arrive unset name items s))
          ≡ or_else (get k items) (read unset name (cached name (some k) s))
    unfolding emit_updated get
    read-emit_updated k [] s u h = refl
    read-emit_updated k ((key, v) ∷ items) s u h =
        read-emit_updated k items _ u.1 h.1
        ∙ ap (or_else (get k items))
            (read-emit_mapping d arrive unset name (some k) key v s named h.0)
        ∙ or_else_if (str_eq key k) v (get k items) (read unset name (cached name (some k) s))
            (λ t. ap (λ i. get i items) (sym ((eq_iff key k).0 t)) ∙ u.0)

  current_map :
      (s : CachingStore V)
      → contains name (signal_names d) ≡ true
      → get_cached_map d arrive unset name s
        ≡ ok (map_values (field_of unset name) (map_of (get name s.cache)))
  unfolding get_cached_map messages_of is_field
  current_map s h = elim (Option-cases (get name s.cache)) [
    | inl n ↦ ground (arith, h, n)
    | inr (m, p) ↦ ground (arith, p)
  ]

  abbrev items_of : CachingStore V → Dict Key V
  items_of s = map_values (field_of unset name) (map_of (get name s.cache))

  -- A key that the map does not have is not cached after the first loop.
  removed-missing :
      (updated : Dict String V) (empty : Option V) (s : CachingStore V) (k : String)
      → cached name (some "") s ≡ none
      → get k updated ≡ none
      → cached name (some k) (removed updated empty (items_of s) s) ≡ none
  removed-missing updated empty s k a p =
      let keys = keys-IsKey updated empty (items_of s) (found (some "") ∙ rw a refl) in
      elim (Option-cases (cached name (some k) s)) [
        | inl n ↦ cached-gone updated empty (some k) (items_of s) s keys n
        | inr (m, q) ↦
            cached-missing updated empty (some k) (items_of s) s (field_of unset name m) keys
              (rw (is_kept, p) refl) (found (some k) ∙ rw q refl)
      ]
    where
      found :
          (j : Key)
          → get j (items_of s)
            ≡ elim (cached name j s) [ none ↦ none | some m ↦ some (field_of unset name m) ]
      found j = get-map_values j (field_of unset name) (map_of (get name s.cache))

  -- After `emit_map_update` for a signal of the descriptor whose name is not empty, with a map that
  -- holds each key once and not the empty key, and with a cache that holds nothing under the empty
  -- key, a reader finds under every key the value of the map, and nothing where the map has none.
  pub emit_map_update-syncs :
      (updated : Dict String V) (empty : Option V) (s : CachingStore V) (k : String)
      → contains name (signal_names d) ≡ true
      → Unique updated
      → All (λ i. i.0 ≢ "") updated
      → cached name (some "") s ≡ none
      → read_result unset name (some k) (emit_map_update d arrive unset name updated empty s)
        ≡ ok (get k updated)
  unfolding emit_map_update
  emit_map_update-syncs updated empty s k h u n a =
      rw (read_result, emit_map_update, current_map s h)
        (ap ok (read-emit_updated updated empty k updated _ u n ∙ settled (get k updated) refl))
    where
      settled :
          (o : Option V)
          → get k updated ≡ o
          → or_else o
              (read unset name (cached name (some k) (removed updated empty (items_of s) s)))
            ≡ o
      settled (some v) p = refl
      settled none p = rw (removed-missing updated empty s k a p) refl
