-- ===== src/Switchboard/Found.antt =====
-- Looking up a switch by its name or an alias, and adding it where there is none.
use common_core.Base.{
  ◌≡◌, refl, ◌⊎◌, inl, inr, String, Bool, true, false, Option, none, some, List, [], ◌∷◌, All,
  if◌then◌else◌, eq_string,
}
use common_core.Base.Dict.{Dict, get}
use common_core.Switchboard.{Switch, has_alias, find_alias, get_switch}

module _ {S T : Type 0} (none_set : S) (none_known : T) (aliases : S → List String) where
  abbrev pub WithoutAlias : String → Dict String (Switch S T) → Type 0
  WithoutAlias name switches =
      All (λ e. has_alias none_set none_known aliases name e.1 ≡ false) switches

  -- What a lookup may yield: the switch of that name, or, if there is none, one with that alias, or
  -- nothing if no switch has the alias either.
  abbrev pub Explains : String → Dict String (Switch S T) → Option (Switch S T) → Type 0
  Explains name switches none = (get name switches ≡ none) × WithoutAlias name switches
  Explains name switches (some sw) =
      (get name switches ≡ some sw)
      ⊎ ((get name switches ≡ none) × (has_alias none_set none_known aliases name sw ≡ true))

  abbrev Aliased : String → Dict String (Switch S T) → Option (Switch S T) → Type 0
  Aliased name switches none = WithoutAlias name switches
  Aliased name switches (some sw) = has_alias none_set none_known aliases name sw ≡ true

  find_alias-Aliased :
      (name : String) (switches : Dict String (Switch S T))
      → Aliased name switches (find_alias none_set none_known aliases name switches)
  unfolding find_alias
  find_alias-Aliased name [] = tt
  find_alias-Aliased name ((key, sw) ∷ switches) =
      step (has_alias none_set none_known aliases name sw) refl
        (find_alias none_set none_known aliases name switches) (find_alias-Aliased name switches)
    where
      step :
          (b : Bool)
          → has_alias none_set none_known aliases name sw ≡ b
          → (o : Option (Switch S T)) → Aliased name switches o
          → Aliased name ((key, sw) ∷ switches) (if b then some sw else o)
      step true e o a = e
      step false e none a = (e, a)
      step false e (some other) a = a

  -- A lookup yields the switch of the given name; if there is none, a switch that has it as an
  -- alias; and nothing only if there is no such switch either.
  get_switch-Explains :
      (name : String) (switches : Dict String (Switch S T))
      → Explains name switches (get_switch none_set none_known aliases name switches)
  unfolding get_switch
  get_switch-Explains name switches =
      by_name (get name switches) refl (find_alias none_set none_known aliases name switches)
        (find_alias-Aliased name switches)
    where
      by_name :
          (o : Option (Switch S T))
          → get name switches ≡ o
          → (f : Option (Switch S T)) → Aliased name switches f
          → Explains name switches (elim o [ some sw ↦ some sw | none ↦ f ])
      by_name (some sw) e f a = inl e
      by_name none e none a = (e, a)
      by_name none e (some sw) a = inr (e, a)
