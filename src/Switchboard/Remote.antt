-- ===== src/Switchboard/Remote.antt =====
-- What a switch of the client asks of the server, and what it tells of itself: `Switch` of
-- src/mantle/switchboard/python/base/switch.py with `RemoteSwitch` of ../grpc/remote_switch.py.
pub mod Localizations
pub mod Targets
use common_core.Base.{
  ℕ, String, Bool, true, false, not, Option, none, some, List, [], ◌∷◌, select, any, nat_eq,
  if◌then◌else◌, eq_string, eq_ℕ,
}
use common_core.Base.Dict.{Dict, get}
use common_core.Base.Result.{Result, ok, raised, apply, chain}
use common_core.Values
use common_core.Values.{PyFields, KeyValueMap, no_keys, Ranges, encode_key_value_map}
use common_core.Signals.Message.{contains}
use common_core.Switchboard.{Switch}
use common_core.Switchboard.Messages.{
  Localization, Dependency, Specification, empty_specification, Status, StubCall,
  set_specification_request, add_dependency_request, remove_interceptor_request, set_target_request,
  set_attributes_request, culprits_query,
}

pub data Failure : Type 0 where
  name_error type_error attribute_error key_error value_error : Failure
  encoding : Values.Failure → Failure

-- A switch of the board, as the messages describe it
abbrev pub RemoteSwitch : Type 0
RemoteSwitch = Switch Specification Status

abbrev pub Call : Type 0
Call = Result Failure StubCall

pub record Replacing : Type 0 where
  pub aliases : Bool
  pub localizations : Bool
  pub dependencies : Bool
  pub interceptors : Bool

abbrev pub adding : Replacing
adding = record {
  aliases = false;
  localizations = false;
  dependencies = false;
  interceptors = false;
}

-- `set_specification(specification, ...)`
unfoldable pub set_specification :
    Specification → Replacing → Option Bool → Option Bool → RemoteSwitch → Call
set_specification spec replace active update_state sw = ok (
    set_specification_request record {
      switch_name = sw.name;
      spec = spec;
      active = active;
      replace_aliases = replace.aliases;
      replace_localizations = replace.localizations;
      replace_dependencies = replace.dependencies;
      replace_interceptors = replace.interceptors;
      update_state = update_state;
    })

-- `set_aliases(*aliases)`
unfoldable pub set_aliases : List String → RemoteSwitch → Call
unfolding set_specification
set_aliases aliases sw =
    set_specification (record empty_specification { aliases = aliases })
      (record adding { aliases = true }) none none sw

-- `add_aliases(*aliases)`
unfoldable pub add_aliases : List String → RemoteSwitch → Call
unfolding set_specification
add_aliases aliases sw =
    set_specification (record empty_specification { aliases = aliases }) adding none none sw

-- `aliases`, as a set: each name once
unfoldable pub to_set : List String → List String
unfolding contains
to_set [] = []
to_set (n ∷ ns) = let rest = to_set ns in if contains n rest then rest else n ∷ rest

-- `remove_aliases(*aliases)`
unfoldable pub remove_aliases : List String → RemoteSwitch → Call
unfolding set_aliases to_set contains select
remove_aliases aliases sw =
    set_aliases (select (λ n. not (contains n aliases)) (to_set sw.specification.aliases)) sw

-- `set_primary(primary)`
unfoldable pub set_primary : Bool → RemoteSwitch → Call
unfolding set_specification
set_primary primary sw =
    set_specification (record empty_specification { is_primary = some primary }) adding none none sw

-- `add_dependency(predecessor_name, ...)`
unfoldable pub add_dependency :
    String → Dependency → Option Bool → Option Bool → RemoteSwitch → Call
add_dependency predecessor d allow_update reevaluate sw =
    ok (add_dependency_request sw.name predecessor d allow_update reevaluate)

-- `remove_dependency(predecessor_name, reevaluate)`, `add_interceptor(interceptor_name, ...)`: both read
-- a name that is not defined.
unfoldable pub remove_dependency : String → Bool → RemoteSwitch → Call
remove_dependency predecessor reevaluate sw = raised name_error

unfoldable pub add_interceptor : String → ℕ → Bool → RemoteSwitch → Call
add_interceptor interceptor state_transitions immediate sw = raised name_error

-- `remove_interceptor(interceptor_name)`
unfoldable pub remove_interceptor : String → RemoteSwitch → Call
remove_interceptor interceptor sw = ok (remove_interceptor_request sw.name interceptor)

-- `invoke_interceptor(interceptor_name, state)`: the stub has the method under another name.
unfoldable pub invoke_interceptor : String → Option ℕ → RemoteSwitch → Call
invoke_interceptor interceptor state sw = raised attribute_error

-- `get_culprits(expected_position)`
unfoldable pub get_culprits : Bool → RemoteSwitch → Call
get_culprits expected sw = ok (culprits_query sw.name expected)
