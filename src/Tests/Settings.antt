-- ===== src/Tests/Settings.antt =====
-- The settings store of src/core/python/core/settingsstore/settingsstore.py on small stores and files.
use common_core.Base.Result.{ok}
use common_core.Base.{
  select, ◌≡◌, ◌≢◌, refl, String, true, false, none, some, [], ◌∷◌, eq_string, str_eq, ◌||◌,
}
use common_core.Base.Int.{pos}
use common_core.Settings.Variant.{null, bool, int, str, dict, Fields, end, field}
use common_core.Settings.Fields.{get, put, at, Keyed, py_eq}
use common_core.Settings.Merge.{merge}
use common_core.Settings.Merge.Paths.{merge_precedence, merge_fills}
use common_core.Settings.Delta.{delta}
use common_core.Settings.Delta.Restore.{Restored, delta_restores}
use common_core.Settings.Access.{set_value, hierarchical}
use common_core.Settings.Access.Assignment.{set_stores}
use common_core.Settings.Files.{
  FileName, Folder, World, SettingsStore, store_after, load_each, find_file_paths,
}
use common_core.Settings.Files.Loading.{ParsesKeyed, Holds, load_each-Holds}
use common_core.Settings.Files.{
  merge_settings, empty_store, new_store, save, load_settings, merge_files, merge_file, parser_for,
  basenames, settings_of, save_name, settings_to_save, recursive_delta, write_first,
}
use common_core.Settings.Files.Saving.{save_delta-restores}

-- {"host": "a", "port": {"in": 1, "out": None}}
abbrev local : Fields
local =
    field "host" (str "a")
      (field "port" (dict (field "in" (int (pos 1)) (field "out" null end))) end)

-- {"host": "b", "port": {"in": 7, "out": 2}, "log": True}
abbrev preset : Fields
preset = field "host" (str "b") (
    field "port" (dict (field "in" (int (pos 7)) (field "out" (int (pos 2)) end)))
      (field "log" (bool true) end))

preset-Keyed : Keyed preset
unfolding get
preset-Keyed = (refl, tt, (refl, (refl, tt, (refl, tt, tt)), (refl, tt, tt)))

local-Keyed : Keyed local
unfolding get
local-Keyed = (refl, tt, (refl, (refl, tt, (refl, tt, tt)), tt))

merge_run :
    merge local preset
    ≡ field "host" (str "a") (
        field "port"
          (dict (field "in" (int (pos 1)) (field "out" (int (pos 2)) end)))
          (field "log" (bool true) end))
unfolding merge get put
merge_run = refl

merge_precedence_example :
    at (some (dict (merge local preset))) ("port" ∷ "in" ∷ []) ≡ some (int (pos 1))
unfolding at get
merge_precedence_example = merge_precedence local preset ("port" ∷ "in" ∷ []) preset-Keyed refl tt

merge_fills_example :
    at (some (dict (merge local preset))) ("port" ∷ "out" ∷ []) ≡ some (int (pos 2))
unfolding at get
merge_fills_example = merge_fills local preset ("port" ∷ "out" ∷ []) preset-Keyed tt refl

delta_run :
    delta local preset
    ≡ field "host"
        (str "a")
        (field "port" (dict (field "in" (int (pos 1)) (field "out" null end))) end)
unfolding delta py_eq get
delta_run = refl

delta_restores_example :
    Restored
      (int (pos 1))
      (at (some (dict (merge (delta local preset) preset))) ("port" ∷ "in" ∷ []))
unfolding at get
delta_restores_example =
    delta_restores local preset ("port" ∷ "in" ∷ []) local-Keyed preset-Keyed refl tt

set_stores_example :
    (s : Fields) × (set_value local (hierarchical ("log" ∷ "file" ∷ "size" ∷ [])) (int (pos 4))
      ≡ ok s)
    × (at (some (dict s)) ("log" ∷ "file" ∷ "size" ∷ []) ≡ some (int (pos 4)))
    × ((j : String) → j ≢ "log" → get j s ≡ get j local)
unfolding get
set_stores_example = set_stores local "log" ("file" ∷ []) "size" (int (pos 4)) (λ h. h)

-- One folder with a file "app.yaml", and a second one with files "app.json" and "app.yaml".
abbrev world : World
world = record {
  is_file = λ f. str_eq f.suffix ".yaml" || str_eq f.suffix ".json";
  read = λ f. some f.suffix;
  parse_json = λ t. some (dict local);
  parse_yaml = λ t. some (dict preset);
  parse_ini = λ t. none;
  is_writable = λ f. true;
}

abbrev app : FileName
app = record { absolute = false; folders = []; stem = "app"; suffix = "" }

abbrev etc : Folder
etc = record { absolute = true; parts = "etc" ∷ [] }

world-ParsesKeyed : ParsesKeyed world
world-ParsesKeyed = record { json = λ t. local-Keyed; yaml = λ t. preset-Keyed; ini = λ t. tt }

abbrev loaded : SettingsStore
loaded = record { values = local; filenames = app ∷ []; filepaths = []; searchpath = etc ∷ [] }

load_each_example : Holds ("host" ∷ []) (str "a") (store_after (load_each world (app ∷ []) loaded))
unfolding at get
load_each_example =
    load_each-Holds world world-ParsesKeyed ("host" ∷ []) (str "a") tt (app ∷ []) loaded refl

-- The installation has "app.json"; the file "app.json" in the local folder gets the differences.
abbrev installed : World
installed = record world { is_file = λ f. str_eq f.suffix ".json" }

abbrev usr : Folder
usr = record { absolute = true; parts = "usr" ∷ "share" ∷ [] }

-- The settings of the installation are `local`, here, and the present ones `preset`.
abbrev changed : SettingsStore
changed = record { values = preset; filenames = app ∷ []; filepaths = []; searchpath = etc ∷ [] }

abbrev defaults : SettingsStore
defaults = record {
  values = local;
  filenames = app ∷ [];
  filepaths =
      (record app { absolute = true; folders = "usr" ∷ "share" ∷ []; suffix = ".json" }) ∷ [];
  searchpath = usr ∷ [];
}

save_delta-restores_example : Restored (str "b") (
    at
      (some
        (dict (merge_settings local (merge_settings (delta preset local) (empty_store []))).values))
      ("host" ∷ []))
unfolding at get put merge new_store load_each load_settings merge_files merge_file parser_for
    find_file_paths basenames select settings_of merge_settings save save_name settings_to_save
    recursive_delta write_first
save_delta-restores_example =
    save_delta-restores installed (etc ∷ []) (usr ∷ []) none changed defaults ("host" ∷ []) refl
      refl preset-Keyed local-Keyed refl tt
