-- ===== src/Tests/Edits.antt =====
-- Edits of a switch, and calls of the server.
use common_core.Base.{
  ◌≡◌, refl, ap, String, true, false, Option, none, some, List, [], ◌∷◌, any, eq_string, eq_iff,
  arith,
}
use common_core.Base.Dict.{Dict, get}
use common_core.Base.Result.{ok, raised}
use common_core.Values.{no_keys}
use common_core.Signals.Message.{contains}
use common_core.Switchboard.{Board, has_alias}
use common_core.Switchboard.Messages.{
  Localization, Specification, empty_specification, Status, culprits_query,
}
use common_core.Switchboard.Remote.{RemoteSwitch, name_error, get_culprits}
use common_core.Switchboard.Remote.Localizations.{
  message, mapping, code, codes, get_localization, get_state_text,
}
use common_core.Switchboard.Remote.Targets.{States, current_state, target}
use common_core.Switchboard.Edits.Followed.{edit_each-edits}
use common_core.Switchboard.Edits.{
  Edit, add_aliases, remove_aliases, set_localizations, set_state_texts, edit_each, aliases_of,
  is_alias_after, localized_after,
}

abbrev idle : Status
idle = record {
  active = false;
  pending = false;
  current_state = 2;
  settled_state = 2;
  attributes = no_keys;
}

abbrev door : RemoteSwitch
door = record {
  name = "door";
  specification = record empty_specification { aliases = "gate" ∷ "exit" ∷ [] };
  status = idle;
  callbacks = [];
}

abbrev board : Board Specification Status
board = record { switches = ("door", door) ∷ []; invoked = []; requests = [] }

abbrev english : Localization
english = record {
  description = "door lock";
  target_texts = [];
  state_texts = (2, "the door is shut") ∷ [];
}

abbrev wordless : Localization
wordless = record { description = ""; target_texts = []; state_texts = [] }

abbrev edits : List Edit
edits =
    remove_aliases ("gate" ∷ [])
    ∷ add_aliases ("hatch" ∷ [])
    ∷ set_state_texts [] "en"
    ∷ set_localizations (message (("en", english) ∷ [])) false
    ∷ set_localizations (message (("en", wordless) ∷ [])) false
    ∷ set_localizations (mapping []) true
    ∷ []

-- A language that is missing gets an empty localization.
abbrev missing :
    Option Localization
    → String
    → Dict String Localization
    → Option (Localization × Dict String Localization)
missing (some x) l d = some (x, d)
missing none l d = some (wordless, (l, wordless) ∷ d)

abbrev subscript :
    String → Dict String Localization → Option (Localization × Dict String Localization)
unfolding get
subscript l d = missing (get l d) l d

subscript-reads :
    (l : String) (d : Dict String Localization) (x : Localization)
    → get l d ≡ some x
    → subscript l d ≡ some (x, d)
unfolding subscript get
subscript-reads l d x h = ap (λ o. missing o l d) h

edit_each-edits_example :
    (new : RemoteSwitch) × (get "door" (edit_each idle edits "door" board).switches ≡ some new)
    × ((a : String)
        → has_alias empty_specification idle aliases_of a new
          ≡ is_alias_after a edits (has_alias empty_specification idle aliases_of a door))
    × ((l : String) (x : Localization)
        → localized_after l edits (get l []) ≡ some x
        → get_localization subscript (code l) new ≡ ok (x, new))
unfolding get
edit_each-edits_example =
    edit_each-edits idle subscript subscript-reads edits "door" door board
      (λ e. ground (arith, eq_iff "door" "")) refl refl

gate_run : is_alias_after "gate" edits true ≡ false
unfolding contains any
gate_run = refl

english_run : localized_after "en" edits none ≡ some english
unfolding get
english_run = refl

-- The numbers of the states
abbrev states : States
states = record {
  activating = 3;
  deactivating = 1;
  inactive = 2;
  active = 4;
  failed = 6;
  members = 0 ∷ 1 ∷ 2 ∷ 3 ∷ 4 ∷ 5 ∷ 6 ∷ [];
}

abbrev opening : RemoteSwitch
opening = record door { status = record idle { current_state = 3 } }

target_run : target states opening ≡ ok (some true)
unfolding target current_state any
target_run = refl

languages_run : get_state_text subscript (codes ("en" ∷ "nb" ∷ [])) door ≡ raised name_error
unfolding get_state_text
languages_run = refl

culprits_run : get_culprits true door ≡ ok (culprits_query "door" true)
unfolding get_culprits
culprits_run = refl
