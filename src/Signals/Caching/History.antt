-- ===== src/Signals/Caching/History.antt =====
-- The cache against the history of emitted messages.
use common_core.Base.{
  String, ◌≡◌, refl, ap, ◌∙◌, inl, inr, Bool-cases, Bool, true, false, ◌&&◌, Option, none, some,
  List, [], ◌∷◌, str_eq, eq_iff, if◌then◌else◌, eq_option, eq_string, option_beq,
}
use common_core.Base.Dict.{Dict, get, get-put, get-remove}
use common_core.Signals.Message.{Action, removal, Message, signal_name, mapping_controls}
use common_core.Signals.Caching.{
  Key, Cached, CachingStore, map_of, update_map, update_cache, cache_message, emit, emit_each,
}

module _ {V : Type 0} where
  -- The message that the cache holds for a signal and a key.
  abbrev pub cached : String → Key → CachingStore V → Option (Message V)
  cached name key s = get key (map_of (get name s.cache))

  -- A message of the signal `name` with the mapping key `key`.
  abbrev pub addresses : String → Key → Message V → Bool
  addresses name key m =
      option_beq (signal_name m) (some name) && option_beq (mapping_controls m).1 key

  -- What an action leaves of a message in the cache.
  abbrev pub after : Action → Message V → Option (Message V)
  after removal m = none
  after _ m = some m

  abbrev pub unless_removal : Message V → Option (Message V)
  unless_removal m = after (mapping_controls m).0 m

  get-update_map :
      (j k : Key) (a : Action) (m : Message V) (d : Cached V)
      → get j (update_map a k m d) ≡ (if option_beq k j then after a m else get j d)
  get-update_map j k removal m d = get-remove j k d
  get-update_map j k _ m d = get-put j k m d

  pub get-update_cache :
      (name n : String) (a : Action) (k : Key) (m : Message V) (c : Dict String (Cached V))
      → map_of (get name (update_cache n a k m c))
        ≡ (if str_eq n name then update_map a k m (map_of (get name c)) else map_of (get name c))
  unfolding update_cache
  get-update_cache name n a k m c =
      rw get-put
        (elim (Bool-cases (str_eq n name)) [ inl e ↦ rw (e, (eq_iff n name).0 e) | inr e ↦ rw e ])

  pub cached-emit :
      (name : String) (key : Key) (m : Message V) (s : CachingStore V)
      → cached name key (emit m s)
        ≡ (if addresses name key m then unless_removal m else cached name key s)
  unfolding emit
  cached-emit name key m s = by_name (signal_name m)
    where
      by_name :
          (o : Option String)
          → get key (map_of (get name (cache_message o m s.cache))) ≡ (
              if option_beq o (some name) && option_beq (mapping_controls m).1 key
              then unless_removal m
              else cached name key s)
      by_name none = refl
      by_name (some n) =
          ap (get key) (get-update_cache name n _ _ m s.cache) ∙ elim (Bool-cases (str_eq n name)) [
            | inl e ↦ rw e (get-update_map key _ _ m (map_of (get name s.cache)))
            | inr e ↦ rw e
          ]

-- The last element that passes a test.
abbrev pub find_last {ℓ} : {A : Type ℓ} → (A → Bool) → List A → Option A
find_last p [] = none
find_last p (x ∷ xs) = elim (find_last p xs) [
  | some y ↦ some y
  | none ↦ if p x then some x else none
]

module _ {V : Type 0} where
  -- What is held once a message was the last, or what was held before.
  abbrev pub held : Option (Message V) → Option (Message V) → Option (Message V)
  held (some m) before = unless_removal m
  held none before = before

  -- After any messages, the cache holds for a signal and a key the last message with that signal and
  -- key, nothing if that one is a removal, and what it held before if there is none.
  pub cached-emit_each :
      (name : String) (key : Key) (ms : List (Message V)) (s : CachingStore V)
      → cached name key (emit_each ms s)
        ≡ held (find_last (addresses name key) ms) (cached name key s)
  unfolding emit_each
  cached-emit_each name key [] s = refl
  cached-emit_each name key (m ∷ ms) s =
      cached-emit_each name key ms (emit m s)
      ∙ shift (find_last (addresses name key) ms) (addresses name key m) (cached-emit name key m s)
    where
      shift :
          (o : Option (Message V)) (b : Bool) {now : Option (Message V)}
          → now ≡ (if b then unless_removal m else cached name key s)
          → held o now
            ≡ held
                (elim o [ some y ↦ some y | none ↦ if b then some m else none ])
                (cached name key s)
      shift none true e = e
      shift none false e = e
      shift (some y) b e = refl
