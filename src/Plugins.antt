-- ===== src/Plugins.antt =====
-- pkg/plugin/registry.go: a registry of factories by name. `none` is a panic of `Register`; that a
-- factory is `nil` is left out. The four global registries are four values of this one.
use otus.Base.{
  Dict, [], Bytes, List, Option, Bool, ◌∷◌, if◌then◌else◌, lookup, false, ◌=?◌, list_eq, nat_eq,
  true, none, ltb, some, ◌||◌, insert, ◌==◌, ◌&&◌,
}

abbrev pub Registry {ℓ} : Type ℓ → Type ℓ
Registry T = Dict Bytes T

module _ {ℓ} {T : Type ℓ} where
  unfoldable pub new_registry : Registry T
  new_registry = []

  unfoldable pub register : Bytes → T → Registry T → Option (Registry T)
  register name factory r =
      if name =? []
      then none
      else elim (lookup name r) [ some t ↦ none | none ↦ some (insert name factory r) ]

  -- `none` is `ErrPluginNotFound`.
  unfoldable pub get_factory : Registry T → Bytes → Option T
  get_factory r name = lookup name r

  unfoldable pub reset : Registry T → Registry T
  reset r = []

-- `sort.Strings`
unfoldable pub less : Bytes → Bytes → Bool
less s [] = false
less [] (d ∷ t) = true
less (c ∷ s) (d ∷ t) = ltb c d || (c == d && less s t)

unfoldable pub insert_sorted : Bytes → List Bytes → List Bytes
insert_sorted s [] = s ∷ []
insert_sorted s (t ∷ ts) =
    let rest = insert_sorted s ts in if less t s then t ∷ rest else s ∷ t ∷ ts

unfoldable pub list_names {ℓ} : {T : Type ℓ} → Registry T → List Bytes
list_names [] = []
list_names ((name, factory) ∷ r) = insert_sorted name (list_names r)
