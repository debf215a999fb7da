-- ===== src/Switchboard.antt =====
-- The client's view of a switchboard: `SwitchboardBase` of src/mantle/switchboard/python/base/baseboard.py,
-- which keeps a switch for every name that the server announces.
pub mod Announced
pub mod Edits
pub mod Found
pub mod Messages
pub mod Remote
use common_core.Base.{
  ℕ, String, Bool, true, false, Option, none, some, List, [], ◌∷◌, ◌++◌, map, str_eq, any,
  if◌then◌else◌, eq_string,
}
use common_core.Base.Dict.{Dict, get, put, remove}
use common_core.Signals.Message.{Action, addition, update, removal}

-- `Switch` of base/switch.py, with the handles and the callbacks that are subscribed.
pub record Switch (S T : Type 0) : Type 0 where
  pub name : String
  pub specification : S
  pub status : T
  pub callbacks : Dict String ℕ

-- A `Signal` message: a specification or a status, under a mapping key.
pub data Payload (S T : Type 0) : Type 0 where
  specified : S → Payload S T
  reported : T → Payload S T

pub record Notice (S T : Type 0) : Type 0 where
  pub action : Action
  pub key : String
  pub payload : Payload S T

-- What is asked of the server.
pub data Request : Type 0 where
  add_switch : String → Request
  set_active : String → Bool → Request

pub record Board (S T : Type 0) : Type 0 where
  pub switches : Dict String (Switch S T)
  -- the callbacks that were invoked, each with the switch as it was then
  pub invoked : List (ℕ × Switch S T)
  pub requests : List Request

module _ {S T : Type 0} where
  -- `subscribe_updates(handle, callback)`
  unfoldable pub subscribe_updates : String → ℕ → Switch S T → Switch S T
  subscribe_updates handle callback sw = record sw { callbacks = put handle callback sw.callbacks }

  -- `unsubscribe_updates(handle)`
  unfoldable pub unsubscribe_updates : String → Switch S T → Switch S T × Bool
  unsubscribe_updates handle sw = (
    record sw { callbacks = remove handle sw.callbacks },
    elim (get handle sw.callbacks) [ none ↦ false | some c ↦ true ],
  )

  -- `_update_specification(specification)`, `_update_status(status)`
  unfoldable pub take_over : Payload S T → Switch S T → Switch S T
  take_over (specified s) sw = record sw { specification = s }
  take_over (reported t) sw = record sw { status = t }

  -- `_invoke_callbacks`, in the order of subscription
  unfoldable pub invoke_callbacks : Switch S T → List (ℕ × Switch S T)
  invoke_callbacks sw = map (λ c. (c.1, sw)) sw.callbacks

-- `none_set` and `none_known` are the empty messages `Specification()` and `Status()`.
module _ {S T : Type 0} (none_set : S) (none_known : T) where
  -- `_new_switch(name)`
  unfoldable pub new_switch : String → Switch S T
  new_switch name = record {
    name = name;
    specification = none_set;
    status = none_known;
    callbacks = [];
  }

  abbrev pub found_or_new : String → Option (Switch S T) → Switch S T
  found_or_new name none = new_switch name
  found_or_new name (some sw) = sw

  abbrev store_switch : String → Switch S T → Board S T → Board S T
  store_switch key sw b = record b {
    switches = put key sw b.switches;
    invoked = b.invoked ++ invoke_callbacks sw;
  }

  abbrev drop_switch : String → Option (Switch S T) → Board S T → Board S T
  drop_switch key none b = b
  drop_switch key (some sw) b = record b {
    switches = remove key b.switches;
    invoked = b.invoked ++ invoke_callbacks sw;
  }

  -- `_get_mapped_switch(msg)`, and the update of the switch that it returns
  abbrev pub map_switch : Action → String → Payload S T → Board S T → Board S T
  map_switch addition key p b =
      store_switch key (take_over p (found_or_new key (get key b.switches))) b
  map_switch update key p b =
      store_switch key (take_over p (found_or_new key (get key b.switches))) b
  map_switch removal key p b =
      drop_switch key (elim (get key b.switches) [ none ↦ none | some sw ↦ some (take_over p sw) ])
        b
  map_switch _ key p b = b

  -- `_on_signal_spec(msg)`, `_on_signal_status(msg)`
  unfoldable pub on_signal : Notice S T → Board S T → Board S T
  unfolding new_switch take_over invoke_callbacks
  on_signal n b = if str_eq n.key "" then b else map_switch n.action n.key n.payload b

  unfoldable pub on_signals : List (Notice S T) → Board S T → Board S T
  on_signals [] b = b
  on_signals (n ∷ ns) b = on_signals ns (on_signal n b)

  module _ (aliases : S → List String) where
    -- `switch_name in switch.aliases`
    unfoldable pub has_alias : String → Switch S T → Bool
    unfolding any
    has_alias name sw = any (λ a. str_eq a name) (aliases sw.specification)

    unfoldable pub find_alias : String → Dict String (Switch S T) → Option (Switch S T)
    find_alias name [] = none
    find_alias name ((key, sw) ∷ switches) =
        let rest = find_alias name switches in if has_alias name sw then some sw else rest

    -- `get_switch(switch_name)`
    unfoldable pub get_switch : String → Dict String (Switch S T) → Option (Switch S T)
    unfolding find_alias
    get_switch name switches = elim (get name switches) [
      | some sw ↦ some sw
      | none ↦ find_alias name switches
    ]

    abbrev activation : String → Option Bool → List Request
    activation name none = []
    activation name (some active) = set_active name active ∷ []

    abbrev pub add_missing :
        String → Option Bool → Board S T → Option (Switch S T) → Switch S T × Board S T
    add_missing name initial_value b (some sw) = (sw, b)
    add_missing name initial_value b none = (
      new_switch name,
      record b {
        switches = put name (new_switch name) b.switches;
        requests = b.requests ++ add_switch name ∷ activation name initial_value;
      },
    )

    -- `get_or_add_switch(switch_name, initial_value)`
    unfoldable pub get_or_add_switch : String → Option Bool → Board S T → Switch S T × Board S T
    unfolding get_switch new_switch
    get_or_add_switch name initial_value b =
        add_missing name initial_value b (get_switch name b.switches)
