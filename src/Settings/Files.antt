-- ===== src/Settings/Files.antt =====
-- Locating, loading and saving settings files: `SettingsStore.__init__`, `load_settings`,
-- `merge_file`, `merge_settings`, `find_paths`, `find_file_paths`, `defaults`, `recursive_delta` and
-- `save` of src/core/python/core/settingsstore/settingsstore.py.
pub mod Loading
pub mod Located
pub mod Saving
use common_core.Base.{
  ℕ, String, Bool, true, false, Option, none, some, List, [], ◌∷◌, ◌++◌, map, select, nat_eq,
  str_eq, if◌then◌else◌,
}
use common_core.Base.Result.{Result, ok, raised}
use common_core.Base.Int.{ℤ, pos, negsuc}
use common_core.Settings.Variant.{
  Variant, null, bool, int, float, str, list, dict, Items, nil, item, Fields, end, field,
}
use common_core.Settings.Number.{number_of, number_eq, finite}
use common_core.Settings.Merge.{merge}
use common_core.Settings.Delta.{delta}

-- A `pathlib.Path` of a file: the folders above it, its name without the suffix, and the suffix,
-- which is empty where the name has none.
pub record FileName : Type 0 where
  pub absolute : Bool
  pub folders : List String
  pub stem : String
  pub suffix : String

pub record Folder : Type 0 where
  pub absolute : Bool
  pub parts : List String

-- folder.joinpath(name)
abbrev pub join_path : Folder → FileName → FileName
join_path f n =
    if n.absolute then n else record n { absolute = f.absolute; folders = f.parts ++ n.folders }

-- name.with_suffix(suffix)
abbrev pub with_suffix : FileName → String → FileName
with_suffix n s = record n { suffix = s }

pub data Failure : Type 0 where
  unsupported_suffix invalid_text not_a_mapping no_filename not_writable no_folder : Failure

-- The file system and the parsers, which the store only calls. A parser yields a value, or fails.
pub record World : Type 0 where
  pub is_file : FileName → Bool
  -- none: the file cannot be opened or read
  pub read : FileName → Option String
  pub parse_json : String → Option Variant
  pub parse_yaml : String → Option Variant
  pub parse_ini : String → Option Variant
  -- whether the folder exists or can be made, and the file in it be opened for writing
  pub is_writable : FileName → Bool

-- The store: a dictionary, with the names that were asked for and the files that were found.
pub record SettingsStore : Type 0 where
  pub values : Fields
  pub filenames : List FileName
  pub filepaths : List FileName
  pub searchpath : List Folder

-- A method that may raise returns the store beside its failure.
pub data Outcome : Type 0 where
  done : SettingsStore → Outcome
  failed : Failure → SettingsStore → Outcome

abbrev pub store_after : Outcome → SettingsStore
store_after (done s) = s
store_after (failed e s) = s

abbrev pub and_then : Outcome → (SettingsStore → Outcome) → Outcome
and_then (done s) f = f s
and_then (failed e s) f = failed e s

abbrev pub parser_suffixes : List String
parser_suffixes = ".json" ∷ ".yaml" ∷ ".ini" ∷ []

-- parser_map[suffix]
unfoldable pub parser_for : World → String → Option (String → Option Variant)
parser_for w suffix =
    if str_eq suffix ".json"
    then some w.parse_json
    else if str_eq suffix ".yaml"
    then some w.parse_yaml
    else if str_eq suffix ".ini"
    then some w.parse_ini
    else none

is_zero : Variant → Bool
is_zero v = elim (number_of v) [ none ↦ false | some n ↦ number_eq n (finite (pos 0)) ]

-- `bool(value)`
unfoldable pub truthy : Variant → Bool
unfolding is_zero
truthy null = false
truthy (str s) = if str_eq s "" then false else true
truthy (list nil) = false
truthy (list (item v xs)) = true
truthy (dict end) = false
truthy (dict (field k v d)) = true
truthy v = if is_zero v then false else true

-- `parser(text) or {}`, which has to be a mapping
unfoldable pub settings_of : Variant → Option Fields
unfolding truthy
settings_of (dict d) = some d
settings_of v = if truthy v then none else some end

unfoldable pub merge_settings : Fields → SettingsStore → SettingsStore
merge_settings settings s = record s { values = merge s.values settings }

merge_parsed : FileName → Option Fields → SettingsStore → Outcome
unfolding merge_settings
merge_parsed path none s = failed not_a_mapping s
merge_parsed path (some settings) s =
    let s' = merge_settings settings s in done (record s' { filepaths = s'.filepaths ++ path ∷ [] })

merge_text : FileName → Option Variant → SettingsStore → Outcome
unfolding merge_parsed settings_of
merge_text path none s = failed invalid_text s
merge_text path (some value) s = merge_parsed path (settings_of value) s

-- `merge_file(filepath)`: a file that cannot be read is passed over.
unfoldable pub merge_file : World → FileName → SettingsStore → Outcome
unfolding merge_text parser_for
merge_file w path s = elim (parser_for w path.suffix) [
  | none ↦ failed unsupported_suffix s
  | some parse ↦ elim (w.read path) [ none ↦ done s | some text ↦ merge_text path (parse text) s ]
]

-- The candidates for a name: with its suffix, or with each suffix that has a parser.
unfoldable pub basenames : FileName → List FileName
basenames n = if str_eq n.suffix "" then map (with_suffix n) parser_suffixes else n ∷ []

in_folders : World → List FileName → List Folder → List FileName
in_folders w names [] = []
in_folders w names (folder ∷ searchpath) =
    select w.is_file (map (join_path folder) names) ++ in_folders w names searchpath

-- `find_file_paths(basename, searchpath)`
unfoldable pub find_file_paths : World → FileName → List Folder → List FileName
unfolding basenames in_folders
find_file_paths w n searchpath =
    if n.absolute then basenames n else in_folders w (basenames n) searchpath

-- `for filepath in paths: self.merge_file(filepath)`
unfoldable pub merge_files : World → List FileName → SettingsStore → Outcome
merge_files w [] s = done s
merge_files w (path ∷ paths) s = and_then (merge_file w path s) (merge_files w paths)

-- `load_settings(filename)`
unfoldable pub load_settings : World → FileName → SettingsStore → Outcome
load_settings w n s =
    and_then (merge_files w (find_file_paths w n s.searchpath) s)
      (λ s'. done (record s' { filenames = s'.filenames ++ n ∷ [] }))

unfoldable pub load_each : World → List FileName → SettingsStore → Outcome
load_each w [] s = done s
load_each w (n ∷ names) s = and_then (load_settings w n s) (load_each w names)

abbrev pub empty_store : List Folder → SettingsStore
empty_store searchpath = record {
  values = end;
  filenames = [];
  filepaths = [];
  searchpath = searchpath;
}

-- `SettingsStore(filenames, searchpath)`
unfoldable pub new_store : World → List FileName → List Folder → Outcome
new_store w names searchpath = load_each w names (empty_store searchpath)

-- `recursive_delta()`: the difference to the settings that come with the installation. `defaults()`
-- loads them from the given folders, and may fail.
unfoldable pub recursive_delta : World → List Folder → SettingsStore → Result Failure Fields
recursive_delta w preinstalled s = elim (new_store w s.filenames preinstalled) [
  | done d ↦ ok (delta s.values d.values)
  | failed e d ↦ raised e
]

-- The file that `save` writes.
pub data Saved : Type 0 where
  written : FileName → Fields → Saved
  unsaved : Failure → Saved

-- The loop over the local folders: the first that can be written takes the file.
unfoldable pub write_first : World → FileName → Fields → List Folder → Failure → Saved
write_first w n settings [] failure = unsaved failure
write_first w n settings (folder ∷ folders) failure =
    let path = with_suffix (join_path folder n) ".json" in
    let rest = write_first w n settings folders not_writable in
    if w.is_writable path then written path settings else rest

-- The file name: the one given, or the first that was loaded.
unfoldable pub save_name : Option FileName → SettingsStore → Option FileName
save_name (some n) s = some n
save_name none s = elim s.filenames [ [] ↦ none | n ∷ _ ↦ some n ]

save_settings : World → List Folder → Option FileName → Result Failure Fields → Saved
unfolding write_first
save_settings w local n (raised e) = unsaved e
save_settings w local none (ok settings) = unsaved no_filename
save_settings w local (some name) (ok settings) = write_first w name settings local no_folder

-- The settings that `save` writes
unfoldable pub settings_to_save : World → List Folder → Bool → SettingsStore → Result Failure Fields
unfolding recursive_delta
settings_to_save w preinstalled true s = recursive_delta w preinstalled s
settings_to_save w preinstalled false s = ok s.values

-- `save(filename, only_delta)`: `local` and `preinstalled` are the folders for local settings, and
-- of the installation. `save_delta(filename)` is `save(filename, True)`.
unfoldable pub save :
    World → List Folder → List Folder → Option FileName → Bool → SettingsStore → Saved
unfolding settings_to_save save_settings save_name
save w local preinstalled n only_delta s =
    save_settings w local (save_name n s) (settings_to_save w preinstalled only_delta s)
