-- ===== src/Switchboard/Messages.antt =====
-- What the client of a switchboard reads and writes of its messages: the names that
-- src/mantle/switchboard/python/protobuf/__init__.py passes on. A state, a polarity and a way to handle
-- exceptions are numbers, as in the messages.
use common_core.Base.{ℕ, String, Bool, Option, none, List, []}
use common_core.Base.Dict.{Dict}
use common_core.Values.{KeyValueMap}

pub record Localization : Type 0 where
  pub description : String
  pub target_texts : Dict Bool String
  pub state_texts : Dict ℕ String

pub record Dependency : Type 0 where
  pub trigger_states : ℕ
  pub polarity : ℕ
  pub hard : Bool
  pub sufficient : Bool

-- A `Specification`, without its interceptors; a flag that is not written is not set.
pub record Specification : Type 0 where
  pub is_primary : Option Bool
  pub aliases : List String
  pub localizations : Dict String Localization
  pub dependencies : Dict String Dependency

abbrev pub empty_specification : Specification
empty_specification = record {
  is_primary = none;
  aliases = [];
  localizations = [];
  dependencies = [];
}

-- A `Status`, without its error
pub record Status : Type 0 where
  pub active : Bool
  pub pending : Bool
  pub current_state : ℕ
  pub settled_state : ℕ
  pub attributes : KeyValueMap

pub record SetSpecificationRequest : Type 0 where
  pub switch_name : String
  pub spec : Specification
  pub active : Option Bool
  pub replace_aliases : Bool
  pub replace_localizations : Bool
  pub replace_dependencies : Bool
  pub replace_interceptors : Bool
  pub update_state : Option Bool

-- What a change of the target carries besides the target; an error is known by a number.
pub record SetTargetRequest : Type 0 where
  pub switch_name : String
  pub target_state : Option ℕ
  pub error : Option ℕ
  pub attributes : KeyValueMap
  pub clear_existing : Bool
  pub with_interceptors : Bool
  pub trigger_descendants : Bool
  pub on_cancel : ℕ
  pub on_error : ℕ

-- A call of the stub, with its request
pub data StubCall : Type 0 where
  set_specification_request : SetSpecificationRequest → StubCall
  add_dependency_request : String → String → Dependency → Option Bool → Option Bool → StubCall
  remove_interceptor_request : String → String → StubCall
  set_target_request : SetTargetRequest → StubCall
  set_attributes_request : String → KeyValueMap → Bool → StubCall
  culprits_query : String → Bool → StubCall
