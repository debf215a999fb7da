-- ===== src/Switchboard/Edits.antt =====
-- A client that edits the aliases and localizations of a switch, and hears of it by the board.
pub mod Followed
use common_core.Base.{
  ℕ, String, ◌≡◌, ◌≢◌, refl, sym, ap, ◌∙◌, inl, inr, Bool-cases, Bool, true, not, ◌&&◌, ◌||◌,
  Option, none, some, List, [], ◌∷◌, ◌++◌, select, any, str_eq, eq_iff, if◌then◌else◌, eq_string,
  beq_refl, arith,
}
use common_core.Base.Dict.{Dict, get, put}
use common_core.Base.Result.{ok}
use common_core.Signals.Message.{contains, update}
use common_core.Switchboard.{Board, specified, has_alias, on_signal}
use common_core.Switchboard.Announced.{announced, get-on_signal}
use common_core.Switchboard.Messages.{
  Localization, Specification, empty_specification, Status, SetSpecificationRequest,
  set_specification_request,
}
use common_core.Switchboard.Remote
use common_core.Switchboard.Remote.{
  Failure, key_error, RemoteSwitch, Call, to_set, set_specification,
}
use common_core.Switchboard.Remote.Localizations
use common_core.Switchboard.Remote.Localizations.{
  LocalizationsInput, message, code, get_localization, encode_localization_map,
}

pub data Edit : Type 0 where
  set_aliases : List String → Edit
  add_aliases : List String → Edit
  remove_aliases : List String → Edit
  set_primary : Bool → Edit
  set_localizations : LocalizationsInput → Bool → Edit
  set_localization :
      String → Option String → Option (Dict Bool String) → Option (Dict ℕ String) → Edit
  set_target_texts : Dict Bool String → String → Edit
  set_state_texts : Dict ℕ String → String → Edit

-- The method of the switch
abbrev pub call_of : Edit → RemoteSwitch → Call
call_of (set_aliases names) = Remote.set_aliases names
call_of (add_aliases names) = Remote.add_aliases names
call_of (remove_aliases names) = Remote.remove_aliases names
call_of (set_primary primary) = Remote.set_primary primary
call_of (set_localizations input replace) = Localizations.set_localizations input replace
call_of (set_localization language d t s) = Localizations.set_localization language d t s
call_of (set_target_texts texts language) = Localizations.set_target_texts texts language
call_of (set_state_texts texts language) = Localizations.set_state_texts texts language

abbrev pub or_else : Option Localization → Option Localization → Option Localization
or_else none o = o
or_else (some l) o = some l

-- `map.insert` of src/mantle/switchboard/cpp/impl/native/local-switch.c++: a key that is there keeps its
-- value.
unfoldable pub insert_each {ℓ} : {V : Type ℓ} → Dict String V → Dict String V → Dict String V
insert_each [] d = d
insert_each ((k, v) ∷ new) d = insert_each new (elim (get k d) [ some w ↦ d | none ↦ put k v d ])

-- `update_spec` of the server, with the arguments that its handler takes from the request. The aliases
-- are a set, whose order is left open.
unfoldable pub update_spec : SetSpecificationRequest → Specification → Specification
unfolding insert_each
update_spec r s = record {
  is_primary = elim r.spec.is_primary [ some primary ↦ some primary | none ↦ s.is_primary ];
  aliases =
      if r.replace_aliases
      then r.spec.aliases
      else s.aliases ++ select (λ a. not (contains a s.aliases)) r.spec.aliases;
  localizations =
      if r.replace_localizations
      then r.spec.localizations
      else insert_each r.spec.localizations s.localizations;
  dependencies =
      if r.replace_dependencies
      then r.spec.dependencies
      else insert_each r.spec.dependencies s.dependencies;
}

module _ (no_status : Status) where
  -- The server announces the specification that a request leads to.
  abbrev pub heard : Call → RemoteSwitch → Board Specification Status → Board Specification Status
  heard (ok (set_specification_request r)) sw b =
      on_signal empty_specification no_status
        (record {
          action = update;
          key = r.switch_name;
          payload = specified (update_spec r sw.specification);
        })
        b
  heard _ sw b = b

  abbrev pub edit_switch :
      Edit → Option RemoteSwitch → Board Specification Status → Board Specification Status
  edit_switch e none b = b
  edit_switch e (some sw) b = heard (call_of e sw) sw b

  -- The switch of a name is edited once after the other, each time as the board has it.
  unfoldable pub edit_each :
      List Edit → String → Board Specification Status → Board Specification Status
  unfolding Remote.set_aliases Remote.add_aliases Remote.remove_aliases Remote.set_primary
      Localizations.set_localizations Localizations.set_localization Localizations.set_target_texts
      Localizations.set_state_texts on_signal get update_spec
  edit_each [] name b = b
  edit_each (e ∷ es) name b = edit_each es name (edit_switch e (get name b.switches) b)

-- Whether a name is an alias after an edit, by whether it was one before
abbrev pub is_alias : String → Edit → Bool → Bool
is_alias a (set_aliases names) before = contains a names
is_alias a (add_aliases names) before = contains a names || before
is_alias a (remove_aliases names) before = before && not (contains a names)
is_alias a _ before = before

-- The localization in a language after an edit, by what it was before
abbrev pub localized : String → Edit → Option Localization → Option Localization
localized l (set_localizations (message m) replace) before =
    if replace then get l m else or_else before (get l m)
localized l _ before = before

abbrev pub is_alias_after : String → List Edit → Bool → Bool
is_alias_after a [] before = before
is_alias_after a (e ∷ es) before = is_alias_after a es (is_alias a e before)

abbrev pub localized_after : String → List Edit → Option Localization → Option Localization
localized_after l [] before = before
localized_after l (e ∷ es) before = localized_after l es (localized l e before)

abbrev pub aliases_of : Specification → List String
aliases_of s = s.aliases
