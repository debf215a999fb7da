-- ===== src/Switchboard/Remote/Targets.antt =====
-- The state and the target of a switch, of src/mantle/switchboard/python/base/switch.py with
-- `RemoteSwitch` of ../grpc/remote_switch.py.
use common_core.Base.{
  ℕ, Bool, true, false, Option, none, some, List, any, nat_eq, if◌then◌else◌, eq_string, eq_ℕ,
}
use common_core.Base.Result.{Result, ok, raised, apply}
use common_core.Values
use common_core.Values.{PyFields, KeyValueMap, no_keys, Ranges, encode_key_value_map}
use common_core.Switchboard.Messages.{set_target_request, set_attributes_request}
use common_core.Switchboard.Remote.{Failure, value_error, encoding, RemoteSwitch, Call}

-- The members of `State` that the code names, and all numbers that have one
pub record States : Type 0 where
  pub activating : ℕ
  pub deactivating : ℕ
  pub inactive : ℕ
  pub active : ℕ
  pub failed : ℕ
  pub members : List ℕ

-- What the changes of a target take besides it
pub record Options : Type 0 where
  pub attributes : Option PyFields
  pub clear_existing : Bool
  pub with_interceptors : Bool
  pub trigger_descendants : Bool
  pub reevaluate : Bool
  pub on_cancel : ℕ
  pub on_error : ℕ

module _ (r : Ranges) where
  abbrev lifted : {A : Type 0} → Result Values.Failure A → Result Failure A
  lifted (ok a) = ok a
  lifted (raised e) = raised (encoding e)

  -- `encodeKeyValueMap(attributes)`, also of None
  abbrev encode_attributes : Option PyFields → Result Failure KeyValueMap
  encode_attributes none = ok no_keys
  encode_attributes (some d) = lifted (encode_key_value_map r d)

  -- `set_target(target_state, error, ...)` of `RemoteSwitch`: the request has no `reevaluate`.
  unfoldable pub set_target : Option ℕ → Option ℕ → Options → RemoteSwitch → Call
  unfolding encode_key_value_map
  set_target target error o sw =
      apply
        (λ attributes. set_target_request record {
          switch_name = sw.name;
          target_state = target;
          error = error;
          attributes = attributes;
          clear_existing = o.clear_existing;
          with_interceptors = o.with_interceptors;
          trigger_descendants = o.trigger_descendants;
          on_cancel = o.on_cancel;
          on_error = o.on_error;
        })
        (encode_attributes o.attributes)

  -- `set_attributes(attributes, clear_existing)`
  unfoldable pub set_attributes : Option PyFields → Bool → RemoteSwitch → Call
  unfolding encode_key_value_map
  set_attributes attributes clear_existing sw =
      apply (λ m. set_attributes_request sw.name m clear_existing) (encode_attributes attributes)

  module _ (s : States) where
    -- `set_active(active, ...)`, `set_error(error, ...)`, `set_auto(...)`
    unfoldable pub set_active : Bool → Options → RemoteSwitch → Call
    unfolding set_target
    set_active active o sw = set_target (some (if active then s.active else s.inactive)) none o sw

    unfoldable pub set_error : ℕ → Options → RemoteSwitch → Call
    unfolding set_target
    set_error error o sw = set_target (some s.failed) (some error) o sw

    unfoldable pub set_auto : Options → RemoteSwitch → Call
    unfolding set_target
    set_auto o sw = set_target none none o sw

module _ (s : States) where
  -- `current_state`, `State(...)` of its number
  unfoldable pub current_state : RemoteSwitch → Result Failure ℕ
  unfolding any
  current_state sw =
      if any (nat_eq sw.status.current_state) s.members
      then ok sw.status.current_state
      else raised value_error

  -- `target`
  unfoldable pub target : RemoteSwitch → Result Failure (Option Bool)
  unfolding current_state
  target sw =
      apply
        (λ n.
          if nat_eq n s.activating
          then some true
          else if nat_eq n s.deactivating
          then some false
          else none)
        (current_state sw)
