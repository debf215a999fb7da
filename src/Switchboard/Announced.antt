-- ===== src/Switchboard/Announced.antt =====
-- The switches on the board against the notices of the server.
use common_core.Base.{
  ◌≡◌, ◌≢◌, refl, sym, ap, ◌∙◌, inl, inr, Bool-cases, Option-cases, String, Bool, true, false,
  Option, none, some, List, [], ◌∷◌, str_eq, eq_iff, select, if◌then◌else◌, eq_string, arith,
}
use common_core.Base.Dict.{put, Dict, get, get-put, get-remove}
use common_core.Signals.Message.{Action, no_action, addition, update, removal, other}
use common_core.Switchboard.{
  Switch, Payload, specified, reported, Notice, Board, take_over, found_or_new, map_switch,
  on_signal, on_signals,
}

module _ {S T : Type 0} (none_set : S) (none_known : T) where
  -- A switch with an announced specification or status
  abbrev pub announced : Payload S T → Switch S T → Switch S T
  announced (specified s) sw = record {
    name = sw.name;
    specification = s;
    status = sw.status;
    callbacks = sw.callbacks;
  }
  announced (reported t) sw = record {
    name = sw.name;
    specification = sw.specification;
    status = t;
    callbacks = sw.callbacks;
  }

  take_over-announced : (p : Payload S T) (sw : Switch S T) → take_over p sw ≡ announced p sw
  unfolding take_over
  take_over-announced (specified s) sw = refl
  take_over-announced (reported t) sw = refl

  -- One switch by itself: what becomes of it when the server announces it.
  abbrev pub react : String → Action → Payload S T → Option (Switch S T) → Option (Switch S T)
  react name addition p o = some (announced p (found_or_new none_set none_known name o))
  react name update p o = some (announced p (found_or_new none_set none_known name o))
  react name removal p o = none
  react name _ p o = o

  abbrev pub react_all : String → List (Notice S T) → Option (Switch S T) → Option (Switch S T)
  react_all name [] o = o
  react_all name (n ∷ ns) o = react_all name ns (react name n.action n.payload o)

  -- The notices about a switch.
  abbrev pub about : String → Notice S T → Bool
  about name n = str_eq n.key name

  unchanged :
      (key name : String) (d : Dict String (Switch S T))
      → get name d ≡ (if str_eq key name then get key d else get name d)
  unchanged key name d = elim (Bool-cases (str_eq key name)) [
    | inl t ↦ rw t (ap (λ k. get k d) (sym ((eq_iff key name).0 t)))
    | inr f ↦ rw f refl
  ]

  stored :
      (name key : String) (p : Payload S T) (b : Board S T)
      → get name (
          put key
            (take_over p (found_or_new none_set none_known key (get key b.switches)))
            b.switches)
        ≡ (if str_eq key name
            then some (announced p (found_or_new none_set none_known key (get key b.switches)))
            else get name b.switches)
  stored name key p b =
      get-put name key _ b.switches
      ∙ ap (λ sw. if str_eq key name then some sw else get name b.switches)
          (take_over-announced p (found_or_new none_set none_known key (get key b.switches)))

  get-map_switch :
      (name key : String) (a : Action) (p : Payload S T) (b : Board S T)
      → get name (map_switch none_set none_known a key p b).switches
        ≡ (if str_eq key name then react key a p (get key b.switches) else get name b.switches)
  get-map_switch name key addition p b = stored name key p b
  get-map_switch name key update p b = stored name key p b
  get-map_switch name key removal p b = elim (Option-cases (get key b.switches)) [
    | inl n ↦ rw n (
        unchanged key name b.switches
        ∙ ap (λ o. if str_eq key name then o else get name b.switches) n)
    | inr (sw, q) ↦ rw q (get-remove name key b.switches)
  ]
  get-map_switch name key no_action p b = unchanged key name b.switches
  get-map_switch name key (other n) p b = unchanged key name b.switches

  elsewhere : (name key : String) → name ≢ "" → str_eq key "" ≡ true → str_eq key name ≡ false
  elsewhere name key h t = ground (arith, eq_iff key "", eq_iff key name)

  renamed :
      {A : Type 0} (key name : String) (f : String → A) (x : A)
      → (if str_eq key name then f key else x) ≡ (if str_eq key name then f name else x)
  renamed key name f x = elim (Bool-cases (str_eq key name)) [
    | inl t ↦ rw t (ap f ((eq_iff key name).0 t))
    | inr e ↦ rw e refl
  ]

  chosen :
      (name : String) (b : Bool) (n : Notice S T) (ns : List (Notice S T)) (o : Option (Switch S T))
      → react_all name ns (if b then react name n.action n.payload o else o)
        ≡ react_all name (if b then n ∷ ns else ns) o
  chosen name true n ns o = refl
  chosen name false n ns o = refl

  pub get-on_signal :
      (name : String) (n : Notice S T) (b : Board S T)
      → name ≢ ""
      → get name (on_signal none_set none_known n b).switches ≡ (
          if str_eq n.key name
          then react name n.action n.payload (get name b.switches)
          else get name b.switches)
  unfolding on_signal
  get-on_signal name n b h = elim (Bool-cases (str_eq n.key "")) [
    | inl t ↦ rw (on_signal, t) (sym (rw (elsewhere name n.key h t) refl))
    | inr f ↦
        rw (on_signal, f)
          (get-map_switch name n.key n.action n.payload b
            ∙ renamed n.key name (λ k. react k n.action n.payload (get k b.switches))
                (get name b.switches))
  ]

  -- What the board has under a name that is not empty, after any notices, is what the notices about
  -- that name make of the switch that it had, in their order: notices about other switches do not
  -- count.
  pub get-on_signals :
      (name : String) (ns : List (Notice S T)) (b : Board S T)
      → name ≢ ""
      → get name (on_signals none_set none_known ns b).switches
        ≡ react_all name (select (about name) ns) (get name b.switches)
  unfolding on_signals select
  get-on_signals name [] b h = refl
  get-on_signals name (n ∷ ns) b h =
      get-on_signals name ns (on_signal none_set none_known n b) h
      ∙ ap (react_all name (select (about name) ns)) (get-on_signal name n b h)
      ∙ chosen name (str_eq n.key name) n (select (about name) ns) (get name b.switches)
