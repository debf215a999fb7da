-- ===== src/Switchboard/Remote/Localizations.antt =====
-- The localizations of a switch, of src/mantle/switchboard/python/base/switch.py.
use common_core.Base.{ℕ, String, Bool, Option, none, some, List, eq_string, eq_ℕ}
use common_core.Base.Dict.{Dict, get}
use common_core.Base.Result.{Result, ok, raised, apply, chain}
use common_core.Switchboard.Messages.{Localization, empty_specification}
use common_core.Switchboard.Remote.{
  Failure, name_error, type_error, attribute_error, key_error, RemoteSwitch, Call, adding,
  set_specification,
}

-- A `LocalizationMap`, a mapping, or any other value
pub data LocalizationsInput : Type 0 where
  message : Dict String Localization → LocalizationsInput
  mapping : Dict String Localization → LocalizationsInput
  neither : LocalizationsInput

-- `encodeLocalizationMap(localizations)`: a mapping leads to a name that is not defined.
unfoldable pub encode_localization_map :
    LocalizationsInput → Result Failure (Dict String Localization)
encode_localization_map (message m) = ok m
encode_localization_map (mapping m) = raised name_error
encode_localization_map neither = raised type_error

-- `set_localizations(localizations, replace)`
unfoldable pub set_localizations : LocalizationsInput → Bool → RemoteSwitch → Call
unfolding set_specification encode_localization_map
set_localizations localizations replace sw = chain (encode_localization_map localizations) (λ m.
    set_specification (record empty_specification { localizations = m })
      (record adding { localizations = replace }) none none sw)

-- `set_localization(language_code, ...)`: `encodeLocalization` is called without its first argument.
unfoldable pub set_localization :
    String
    → Option String
    → Option (Dict Bool String)
    → Option (Dict ℕ String)
    → RemoteSwitch
    → Call
set_localization language description target_texts state_texts sw = raised type_error

-- `set_target_texts(texts, language_code)`
unfoldable pub set_target_texts : Dict Bool String → String → RemoteSwitch → Call
unfolding set_localization
set_target_texts texts language sw = set_localization language none (some texts) none sw

-- `set_state_texts(texts, language_code)` calls a method that no class has.
unfoldable pub set_state_texts : Dict ℕ String → String → RemoteSwitch → Call
set_state_texts texts language sw = raised attribute_error

-- A language, a list or tuple of them, or any other value
pub data LanguageChoice : Type 0 where
  code : String → LanguageChoice
  codes : List String → LanguageChoice
  neither : LanguageChoice

-- `map[key]` of a message's map is a parameter: what it yields and leaves behind, or KeyError.
module _
    (subscript : String
      → Dict String Localization
      → Option (Localization × Dict String Localization)) where
  abbrev found :
      RemoteSwitch
      → Option (Localization × Dict String Localization)
      → Result Failure (Localization × RemoteSwitch)
  found sw none = raised key_error
  found sw (some (l, m)) =
      ok (l, record sw { specification = record sw.specification { localizations = m } })

  -- `get_localization(language_choices)`: all but a single language leads to names that are not
  -- defined.
  unfoldable pub get_localization :
      LanguageChoice → RemoteSwitch → Result Failure (Localization × RemoteSwitch)
  get_localization (code language) sw = found sw (subscript language sw.specification.localizations)
  get_localization (codes languages) sw = raised name_error
  get_localization neither sw = raised name_error

  -- `get_description`, `get_target_texts`, which `get_target_text` repeats, and `get_state_texts`
  unfoldable pub get_description : LanguageChoice → RemoteSwitch → Result Failure String
  unfolding get_localization
  get_description choice sw = apply (λ f. f.0.description) (get_localization choice sw)

  unfoldable pub get_target_texts :
      LanguageChoice → RemoteSwitch → Result Failure (Dict Bool String)
  unfolding get_localization
  get_target_texts choice sw = apply (λ f. f.0.target_texts) (get_localization choice sw)

  unfoldable pub get_state_texts : LanguageChoice → RemoteSwitch → Result Failure (Dict ℕ String)
  unfolding get_localization
  get_state_texts choice sw = apply (λ f. f.0.state_texts) (get_localization choice sw)

  -- `get_state_text(language_choices)`
  unfoldable pub get_state_text : LanguageChoice → RemoteSwitch → Result Failure (Option String)
  unfolding get_state_texts
  get_state_text choice sw = apply (get sw.status.current_state) (get_state_texts choice sw)
