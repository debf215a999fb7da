-- ===== src/Settings/Files/Saving.antt =====
-- What is saved, and what comes back from it after a restart.
use mathlib.Core.Path.{subst}
use common_core.Base.{
  String, ◌≡◌, refl, sym, ap, ◌∙◌, Bool, true, false, Option, none, some, List, [], ◌∷◌,
  if◌then◌else◌,
}
use common_core.Base.Result.{ok, raised}
use common_core.Settings.Variant.{Variant, dict, Fields, end, field}
use common_core.Settings.Fields.{get, py_eq, WellKeyed, WellKeyed?, Keyed, at}
use common_core.Settings.Merge.{merge, merge_value}
use common_core.Settings.Merge.Pointwise.{resolve, get-merge}
use common_core.Settings.Merge.Paths.{IsLeaf, IsLeaf?}
use common_core.Settings.Delta.{delta, delta_value, cons_some, nonempty, or_null, unless_eq}
use common_core.Settings.Delta.Restore.{differ, get-delta, Restored, delta_restores}
use common_core.Settings.Files.{
  FileName, Folder, World, SettingsStore, done, failed, Failure, Saved, written, unsaved, no_folder,
  empty_store, new_store, merge_settings, recursive_delta, write_first, save_name, save_settings,
  settings_to_save, save, with_suffix, join_path, not_writable,
}

cons_some-Keyed :
    (k : String) (o : Option Variant) (d : Fields)
    → get k d ≡ none
    → WellKeyed? o
    → Keyed d
    → Keyed (cons_some k o d)
cons_some-Keyed k none d h w a = a
cons_some-Keyed k (some v) d h w a = (h, w, a)

unless_eq-WellKeyed : (v : Variant) (o : Option Variant) → WellKeyed v → WellKeyed? (unless_eq v o)
unless_eq-WellKeyed v o w =
    elim (py_eq v (or_null o)) as (λ b. WellKeyed? (if b then none else some v)) [
      | true ↦ tt
      | false ↦ w
    ]

nonempty-WellKeyed : (d : Fields) → Keyed d → WellKeyed? (nonempty d)
nonempty-WellKeyed end a = tt
nonempty-WellKeyed (field k v d) a = a

mutual
  unfolding delta

  -- The delta holds each key once if the settings do.
  delta-Keyed : (c b : Fields) → Keyed c → Keyed (delta c b)
  delta-Keyed end b a = tt
  delta-Keyed (field k v c) b a =
      cons_some-Keyed k (delta_value v (get k b)) (delta c b)
        (get-delta k c b a.2 ∙ ap (λ o. differ o (get k b)) a.0)
        (delta_value-WellKeyed v (get k b) a.1) (delta-Keyed c b a.2)

  delta_value-WellKeyed :
      (v : Variant) (o : Option Variant) → WellKeyed v → WellKeyed? (delta_value v o)
  delta_value-WellKeyed (dict c) (some (dict b)) w =
      nonempty-WellKeyed (delta c b) (delta-Keyed c b w)
  delta_value-WellKeyed v o w = unless_eq-WellKeyed v o w

resolve-nothing : (o : Option Variant) → resolve none o ≡ o
unfolding merge_value
resolve-nothing none = refl
resolve-nothing (some v) = refl

-- Settings that are merged into none read the same.
at-merge_end :
    (u d : Fields) (k : String) (p : List String)
    → Keyed u
    → Keyed d
    → at (some (dict (merge (merge end u) d))) (k ∷ p) ≡ at (some (dict (merge u d))) (k ∷ p)
unfolding at get
at-merge_end u d k p x y =
    ap (λ o. at o p)
      (get-merge k (merge end u) d y
        ∙ ap (λ o. resolve o (get k d)) (get-merge k end u x ∙ resolve-nothing (get k u))
        ∙ sym (get-merge k u d y))

-- The settings in the file, or others if nothing was saved
abbrev content : Fields → Saved → Fields
content other (written path d) = d
content other (unsaved e) = other

write_first-written :
    (w : World) (n : FileName) (settings : Fields) (folders : List Folder) (e : Failure)
    {path : FileName} {saved : Fields}
    → write_first w n settings folders e ≡ written path saved
    → saved ≡ settings
unfolding write_first
write_first-written w n settings [] e h = cc
write_first-written w n settings (f ∷ folders) e {path} {saved} h =
    chosen (w.is_writable (with_suffix (join_path f n) ".json"))
      (write_first-written w n settings folders not_writable) h
  where
    chosen :
        (b : Bool)
        → (write_first w n settings folders not_writable ≡ written path saved → saved ≡ settings)
        → (if b
            then written (with_suffix (join_path f n) ".json") settings
            else write_first w n settings folders not_writable)
          ≡ written path saved
        → saved ≡ settings
    chosen true rest q = sym (ap (content settings) q)
    chosen false rest q = rest q

saved-delta :
    (w : World) (local preinstalled : List Folder) (o : Option FileName) (s d : SettingsStore)
    {path : FileName} {saved : Fields}
    → new_store w s.filenames preinstalled ≡ done d
    → save_settings w local o (settings_to_save w preinstalled true s) ≡ written path saved
    → saved ≡ delta s.values d.values
unfolding save_settings settings_to_save recursive_delta
saved-delta w local preinstalled o s d h e = by_name o (
    sym (
      ap
        (λ x.
          save_settings w local o
            (elim x [ done d ↦ ok (delta s.values d.values) | failed e d ↦ raised e ]))
        h)
    ∙ e)
  where
    by_name :
        (o : Option FileName) {path : FileName} {saved : Fields}
        → save_settings w local o (ok (delta s.values d.values)) ≡ written path saved
        → saved ≡ delta s.values d.values
    by_name none q = cc
    by_name (some name) q = write_first-written w name (delta s.values d.values) local no_folder q

-- If the defaults load and `save_delta` writes a file, then merging that file's settings into an
-- empty store and the defaults after it brings back every setting that is neither null nor a
-- dictionary, as it was or as a value that Python holds equal; all dictionaries are taken to hold a
-- key once.
pub save_delta-restores :
    (w : World) (local preinstalled : List Folder) (n : Option FileName) (s d : SettingsStore)
    (p : List String) {path : FileName} {saved : Fields} {v : Variant}
    → new_store w s.filenames preinstalled ≡ done d
    → save w local preinstalled n true s ≡ written path saved
    → Keyed s.values
    → Keyed d.values
    → at (some (dict s.values)) p ≡ some v
    → IsLeaf v
    → Restored v (
        at (some (dict (merge_settings d.values (merge_settings saved (empty_store []))).values)) p)
unfolding save merge_settings at
save_delta-restores w local preinstalled n s d [] {path} {saved} {v} h e x y a l =
    absurd (subst IsLeaf? (sym a) l)
save_delta-restores w local preinstalled n s d (k ∷ p) {path} {saved} {v} h e x y a l =
    let q = saved-delta w local preinstalled (save_name n s) s d h e in
    subst (λ u. Restored v (at (some (dict (merge (merge end u) d.values))) (k ∷ p))) (sym q)
      (subst (Restored v)
        (sym
          (at-merge_end (delta s.values d.values) d.values k p (delta-Keyed s.values d.values x) y))
        (delta_restores s.values d.values (k ∷ p) x y a l))
