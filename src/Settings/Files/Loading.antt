-- ===== src/Settings/Files/Loading.antt =====
-- What loading keeps and adds.
use common_core.Base.{
  String, ◌≡◌, Bool, true, false, Option, none, some, str_eq, List, [], ◌∷◌, if◌then◌else◌,
}
use common_core.Settings.Variant.{Variant, dict, Fields, end}
use common_core.Settings.Fields.{WellKeyed, WellKeyed?, Keyed, at}
use common_core.Settings.Merge.Paths.{IsLeaf, merge_precedence}
use common_core.Settings.Files.{
  FileName, World, SettingsStore, Outcome, done, failed, store_after, and_then, parser_for,
  settings_of, truthy, unsupported_suffix, merge_parsed, merge_text, merge_file, merge_files,
  find_file_paths, load_settings, load_each,
}

-- The parsers build dictionaries, which hold a key once.
pub record ParsesKeyed (w : World) : Type 0 where
  pub json : (t : String) → WellKeyed? (w.parse_json t)
  pub yaml : (t : String) → WellKeyed? (w.parse_yaml t)
  pub ini : (t : String) → WellKeyed? (w.parse_ini t)

abbrev Parses : Option (String → Option Variant) → Type 0
Parses none = Unit
Parses (some parse) = (t : String) → WellKeyed? (parse t)

Parses-if :
    (b : Bool) (x y : Option (String → Option Variant))
    → Parses x
    → Parses y
    → Parses (if b then x else y)
Parses-if true x y h k = h
Parses-if false x y h k = k

parser_for-Parses : (w : World) (suffix : String) → ParsesKeyed w → Parses (parser_for w suffix)
unfolding parser_for
parser_for-Parses w suffix k =
    Parses-if (str_eq suffix ".json") _ _ k.json
      (Parses-if (str_eq suffix ".yaml") _ _ k.yaml (Parses-if (str_eq suffix ".ini") _ _ k.ini tt))

abbrev Keyed? : Option Fields → Type 0
Keyed? none = Unit
Keyed? (some d) = Keyed d

Keyed?-if : (b : Bool) → Keyed? (if b then none else some end)
Keyed?-if true = tt
Keyed?-if false = tt

settings_of-Keyed : (x : Variant) → WellKeyed x → Keyed? (settings_of x)
unfolding settings_of
settings_of-Keyed (dict d) k = k
settings_of-Keyed x k = Keyed?-if (truthy x)

-- `s` has the leaf setting `v` at the path `p`.
abbrev pub Holds : List String → Variant → SettingsStore → Type 0
Holds p v s = at (some (dict s.values)) p ≡ some v

module _ (w : World) (keyed : ParsesKeyed w) (p : List String) (v : Variant) (leaf : IsLeaf v) where
  merge_parsed-Holds :
      (path : FileName) (o : Option Fields) (s : SettingsStore)
      → Keyed? o
      → Holds p v s
      → Holds p v (store_after (merge_parsed path o s))
  unfolding merge_parsed
  merge_parsed-Holds path none s k h = h
  merge_parsed-Holds path (some d) s k h = merge_precedence s.values d p k h leaf

  merge_text-Holds :
      (path : FileName) (o : Option Variant) (s : SettingsStore)
      → WellKeyed? o
      → Holds p v s
      → Holds p v (store_after (merge_text path o s))
  unfolding merge_text
  merge_text-Holds path none s k h = h
  merge_text-Holds path (some x) s k h =
      merge_parsed-Holds path (settings_of x) s (settings_of-Keyed x k) h

  -- The two cases of `merge_file`: the parser, and what was read.
  merge_file-Holds :
      (path : FileName) (s : SettingsStore)
      → Holds p v s
      → Holds p v (store_after (merge_file w path s))
  unfolding merge_file
  merge_file-Holds path s h =
      by_parser (parser_for w path.suffix) (parser_for-Parses w path.suffix keyed)
    where
      by_text :
          (parse : String → Option Variant) (text : Option String)
          → Parses (some parse)
          → Holds p v
              (store_after (elim text [ none ↦ done s | some t ↦ merge_text path (parse t) s ]))
      by_text parse none k = h
      by_text parse (some t) k = merge_text-Holds path (parse t) s (k t) h

      by_parser :
          (o : Option (String → Option Variant))
          → Parses o
          → Holds p v (
              store_after (elim o [
                | none ↦ failed unsupported_suffix s
                | some parse ↦ elim (w.read path) [
                  | none ↦ done s
                  | some t ↦ merge_text path (parse t) s
                ]
              ]))
      by_parser none k = h
      by_parser (some parse) k = by_text parse (w.read path) k

  and_then-Holds :
      (o : Outcome) (f : SettingsStore → Outcome)
      → Holds p v (store_after o)
      → ((s : SettingsStore) → Holds p v s → Holds p v (store_after (f s)))
      → Holds p v (store_after (and_then o f))
  and_then-Holds (done s) f h k = k s h
  and_then-Holds (failed e s) f h k = h

  merge_files-Holds :
      (paths : List FileName) (s : SettingsStore)
      → Holds p v s
      → Holds p v (store_after (merge_files w paths s))
  unfolding merge_files
  merge_files-Holds [] s h = h
  merge_files-Holds (path ∷ paths) s h =
      and_then-Holds (merge_file w path s) (merge_files w paths) (merge_file-Holds path s h)
        (merge_files-Holds paths)

  load_settings-Holds :
      (n : FileName) (s : SettingsStore)
      → Holds p v s
      → Holds p v (store_after (load_settings w n s))
  unfolding load_settings
  load_settings-Holds n s h =
      and_then-Holds (merge_files w (find_file_paths w n s.searchpath) s) _
        (merge_files-Holds (find_file_paths w n s.searchpath) s h) (λ s' h'. h')

  -- Whatever files are loaded, whether or not one of them fails, a setting of the store that is
  -- neither null nor a dictionary stays as it is, provided that the parsers build dictionaries that
  -- hold a key once.
  pub load_each-Holds :
      (names : List FileName) (s : SettingsStore)
      → Holds p v s
      → Holds p v (store_after (load_each w names s))
  unfolding load_each
  load_each-Holds [] s h = h
  load_each-Holds (n ∷ names) s h =
      and_then-Holds (load_settings w n s) (load_each w names) (load_settings-Holds n s h)
        (load_each-Holds names)
