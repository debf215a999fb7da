-- ===== src/Switchboard/Edits/Followed.antt =====
-- What the edits of a switch make of it.
use common_core.Base.{
  String, ◌≡◌, ◌≢◌, refl, sym, ap, ◌∙◌, inl, inr, Bool-cases, Bool, true, not, ◌&&◌, ◌||◌, Option,
  none, some, ◌++◌, List, [], ◌∷◌, select, any, str_eq, eq_iff, if◌then◌else◌, eq_string, beq_refl,
  arith,
}
use common_core.Base.Dict.{Dict, get, put, get-put}
use common_core.Base.Result.{ok}
use common_core.Signals.Message.{contains}
use common_core.Switchboard.{Board, specified, has_alias}
use common_core.Switchboard.Announced.{announced, get-on_signal}
use common_core.Switchboard.Messages.{
  Localization, Specification, empty_specification, Status, SetSpecificationRequest,
  set_specification_request,
}
use common_core.Switchboard.Remote
use common_core.Switchboard.Remote.{
  Failure, key_error, RemoteSwitch, Call, to_set, set_specification,
}
use common_core.Switchboard.Remote.Localizations
use common_core.Switchboard.Remote.Localizations.{
  LocalizationsInput, message, code, get_localization, encode_localization_map,
}
use common_core.Switchboard.Edits.{
  Edit, set_aliases, add_aliases, remove_aliases, set_primary, set_localizations, or_else,
  insert_each, update_spec, heard, edit_switch, edit_each, is_alias, localized, is_alias_after,
  localized_after, aliases_of,
}

contains-to_set : (a : String) (names : List String) → contains a (to_set names) ≡ contains a names
unfolding contains any to_set
contains-to_set a [] = refl
contains-to_set a (n ∷ names) = elim (Bool-cases (contains n (to_set names))) [
  | inl t ↦ rw t (elim (Bool-cases (str_eq n a)) [
    | inl e ↦ rw e (ap (λ k. contains k (to_set names)) (sym ((eq_iff n a).0 e)) ∙ t)
    | inr f ↦ rw f (contains-to_set a names)
  ])
  | inr f ↦ rw f (ap (λ r. if str_eq n a then true else r) (contains-to_set a names))
]

contains-select :
    (a : String) (p : String → Bool) (names : List String)
    → contains a (select p names) ≡ contains a names && p a
unfolding contains any select
contains-select a p [] = refl
contains-select a p (n ∷ names) =
    let rest = contains-select a p names in
    elim (Bool-cases (str_eq n a)) [
      | inl e ↦ let same : p n ≡ p a = ap p ((eq_iff n a).0 e) in ground (arith, rest, e, same)
      | inr f ↦ ground (arith, rest, f)
    ]

contains-append :
    (a : String) (xs ys : List String) → contains a (xs ++ ys) ≡ contains a xs || contains a ys
unfolding contains any
contains-append a [] ys = refl
contains-append a (x ∷ xs) ys = ground (arith, contains-append a xs ys)

get-insert_each :
    {V : Type 0} (l : String) (new d : Dict String V)
    → get l (insert_each new d) ≡ elim (get l d) [ some v ↦ some v | none ↦ get l new ]
unfolding insert_each get
get-insert_each l [] d = ground (arith)
get-insert_each l ((k, v) ∷ new) d =
    ground (
      arith,
      get-insert_each l new d,
      get-insert_each l new (put k v d),
      get-put l k v d,
      eq_iff k l,
    )

alias-update_spec :
    (r : SetSpecificationRequest) (s : Specification) (a : String)
    → contains a (update_spec r s).aliases ≡ (
        if r.replace_aliases
        then contains a r.spec.aliases
        else contains a r.spec.aliases || contains a s.aliases)
unfolding update_spec
alias-update_spec r s a = elim (Bool-cases r.replace_aliases) [
  | inl t ↦ rw t refl
  | inr f ↦ rw f (
      contains-append a s.aliases _
      ∙ ap (λ b. contains a s.aliases || b)
          (contains-select a (λ n. not (contains n s.aliases)) r.spec.aliases)
      ∙ either (contains a s.aliases) (contains a r.spec.aliases))
]
  where
    either : (b c : Bool) → b || (c && not b) ≡ c || b
    either b c = ground arith

localization-update_spec :
    (r : SetSpecificationRequest) (s : Specification) (l : String)
    → get l (update_spec r s).localizations ≡ (
        if r.replace_localizations
        then get l r.spec.localizations
        else or_else (get l s.localizations) (get l r.spec.localizations))
unfolding update_spec
localization-update_spec r s l = elim (Bool-cases r.replace_localizations) [
  | inl t ↦ rw t refl
  | inr f ↦ rw f (
      get-insert_each l r.spec.localizations s.localizations
      ∙ kept (get l s.localizations) (get l r.spec.localizations))
]
  where
    kept : (o p : Option Localization) → elim o [ some v ↦ some v | none ↦ p ] ≡ or_else o p
    kept none p = refl
    kept (some v) p = refl

or_else-none : (o : Option Localization) → or_else o none ≡ o
or_else-none none = refl
or_else-none (some x) = refl

-- What an edit makes of a switch
record IsEdited (e : Edit) (sw new : RemoteSwitch) : Type 0 where
  name : new.name ≡ sw.name
  aliases :
      (a : String)
      → contains a new.specification.aliases ≡ is_alias a e (contains a sw.specification.aliases)
  localizations :
      (l : String)
      → get l new.specification.localizations ≡ localized l e (get l sw.specification.localizations)

module _ (no_status : Status) where
  announcement :
      (e : Edit) (name : String) (r : SetSpecificationRequest) (sw : RemoteSwitch)
      (b : Board Specification Status)
      → name ≢ ""
      → get name b.switches ≡ some sw
      → r.switch_name ≡ name
      → ((a : String)
          → contains a (update_spec r sw.specification).aliases
            ≡ is_alias a e (contains a sw.specification.aliases))
      → ((l : String)
          → get l (update_spec r sw.specification).localizations
            ≡ localized l e (get l sw.specification.localizations))
      → (new : RemoteSwitch) × (get name
            (heard no_status (ok (set_specification_request r)) sw b).switches
          ≡ some new)
        × IsEdited e sw new
  announcement e name r sw b h known named aliases localizations = (
    announced empty_specification no_status (specified (update_spec r sw.specification)) sw,
    get-on_signal empty_specification no_status name _ b h ∙ rw (named, beq_refl name, known) refl,
    record { name = refl; aliases = aliases; localizations = localizations },
  )

  edit_switch-IsEdited :
      (e : Edit) (name : String) (sw : RemoteSwitch) (b : Board Specification Status)
      → name ≢ ""
      → get name b.switches ≡ some sw
      → sw.name ≡ name
      → (new : RemoteSwitch) × (get name (edit_switch no_status e (some sw) b).switches ≡ some new)
        × IsEdited e sw new
  unfolding Remote.set_aliases Remote.add_aliases Remote.remove_aliases Remote.set_primary
      Localizations.set_localizations Localizations.set_localization Localizations.set_target_texts
      Localizations.set_state_texts contains any get set_specification encode_localization_map
  edit_switch-IsEdited (set_aliases names) name sw b h known named =
      announcement (set_aliases names) name _ sw b h known named
        (alias-update_spec _ sw.specification)
        (λ l.
          localization-update_spec _ sw.specification l
          ∙ or_else-none (get l sw.specification.localizations))
  edit_switch-IsEdited (add_aliases names) name sw b h known named =
      announcement (add_aliases names) name _ sw b h known named
        (alias-update_spec _ sw.specification)
        (λ l.
          localization-update_spec _ sw.specification l
          ∙ or_else-none (get l sw.specification.localizations))
  edit_switch-IsEdited (remove_aliases names) name sw b h known named =
      announcement (remove_aliases names) name _ sw b h known named
        (λ a.
          alias-update_spec _ sw.specification a
          ∙ contains-select a (λ n. not (contains n names)) (to_set sw.specification.aliases)
          ∙ ap (λ c. c && not (contains a names)) (contains-to_set a sw.specification.aliases))
        (λ l.
          localization-update_spec _ sw.specification l
          ∙ or_else-none (get l sw.specification.localizations))
  edit_switch-IsEdited (set_primary primary) name sw b h known named =
      announcement (set_primary primary) name _ sw b h known named
        (alias-update_spec _ sw.specification)
        (λ l.
          localization-update_spec _ sw.specification l
          ∙ or_else-none (get l sw.specification.localizations))
  edit_switch-IsEdited (set_localizations (message m) replace) name sw b h known named =
      announcement (set_localizations (message m) replace) name _ sw b h known named
        (alias-update_spec _ sw.specification) (localization-update_spec _ sw.specification)
  edit_switch-IsEdited _ name sw b h known named =
      (sw, known, record { name = refl; aliases = λ a. refl; localizations = λ l. refl })

  -- A client edits a switch of a board, in any order of the methods that set, add and remove aliases, set
  -- the primary flag or set localizations, the failing ones included; the server updates the
  -- specification that the board has, and each announcement arrives before the next edit. Then the
  -- board has the switch with the aliases that the edits make of its former ones, as of a set, and a
  -- localization that they leave in a language is read back: setting localizations without replacing
  -- them adds the languages that are new and leaves the others as they were. The switch has the name
  -- that the board knows it by, which is not empty, and subscribing a message's map with a key that it
  -- has gives the entry and leaves the map as it is.
  pub edit_each-edits :
      (subscript : String
        → Dict String Localization
        → Option (Localization × Dict String Localization))
      → ((l : String) (d : Dict String Localization) (x : Localization)
          → get l d ≡ some x
          → subscript l d ≡ some (x, d))
      → (es : List Edit) (name : String) (sw : RemoteSwitch) (b : Board Specification Status)
      → name ≢ ""
      → get name b.switches ≡ some sw
      → sw.name ≡ name
      → (new : RemoteSwitch) × (get name (edit_each no_status es name b).switches ≡ some new)
        × ((a : String)
            → has_alias empty_specification no_status aliases_of a new
              ≡ is_alias_after a es (has_alias empty_specification no_status aliases_of a sw))
        × ((l : String) (x : Localization)
            → localized_after l es (get l sw.specification.localizations) ≡ some x
            → get_localization subscript (code l) new ≡ ok (x, new))
  unfolding edit_each has_alias contains any get get_localization
  edit_each-edits subscript reads [] name sw b h known named =
      (sw, known, λ a. refl, λ l x e. rw (reads l sw.specification.localizations x e) refl)
  edit_each-edits subscript reads (e ∷ es) name sw b h known named =
      let (next, held, edited) = edit_switch-IsEdited e name sw b h known named in
      let (new, last, aliases, texts) =
        edit_each-edits subscript reads es name next (edit_switch no_status e (some sw) b) h held
          (edited.name ∙ named) in
      (
        new,
        ap (λ o. get name (edit_each no_status es name (edit_switch no_status e o b)).switches)
              known
            ∙ last,
        λ a. aliases a ∙ ap (is_alias_after a es) (edited.aliases a),
        λ l x q. texts l x (ap (localized_after l es) (edited.localizations l) ∙ q),
      )
