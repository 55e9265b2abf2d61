-- ===== src/Prelude/Map.antt =====
-- A Go `map[string]V` as an association list. Where the program ranges over a map, Go's order is
-- unspecified; the model goes through the entries in the order of the list.
use Prim.Native.String.{String}
use mathlib.Core.Path.{◌≡◌, refl}
use mathlib.Core.Bool.{Bool, true, false}
use mathlib.Core.List.{List, [], ◌∷◌}
use mathlib.Core.Option.{Option, none, some}
use native.Mathlib.Omega.{arith}
use text.Mathlib.Text.{◌==◌ as str_eq}
use text.Mathlib.TextEquality.{eq_iff}
use kubesim.Prelude.Tests.{if◌then◌else◌}

abbrev pub Map {ℓ} : Type ℓ → Type ℓ
Map V = List (String × V)

module _ {ℓ} {V : Type ℓ} where
  unfoldable pub lookup : String → Map V → Option V
  lookup k [] = none
  lookup k ((j, v) ∷ m) = if str_eq j k then some v else lookup k m

  -- `m[k] = v`
  unfoldable pub insert : String → V → Map V → Map V
  insert k v [] = (k, v) ∷ []
  insert k v ((j, w) ∷ m) = if str_eq j k then (k, v) ∷ m else (j, w) ∷ insert k v m

  -- `delete(m, k)`
  unfoldable pub erase : String → Map V → Map V
  erase k [] = []
  erase k ((j, w) ∷ m) = let rest = erase k m in if str_eq j k then rest else (j, w) ∷ rest

  abbrev pub present : Option V → Bool
  present none = false
  present (some v) = true

  pub lookup-insert :
      (key wanted : String) (value : V) (entries : Map V)
      → lookup wanted (insert key value entries)
        ≡ (if str_eq key wanted then some value else lookup wanted entries)
  unfolding lookup insert
  lookup-insert key wanted value [] = refl
  lookup-insert key wanted value ((first, old) ∷ rest) =
      let ih = lookup-insert key wanted value rest in
      ground (arith, ih, eq_iff first wanted, eq_iff first key, eq_iff key wanted)

  pub lookup-erase :
      (key wanted : String) (entries : Map V)
      → lookup wanted (erase key entries)
        ≡ (if str_eq key wanted then none else lookup wanted entries)
  unfolding lookup erase
  lookup-erase key wanted [] = ground arith
  lookup-erase key wanted ((first, old) ∷ rest) =
      let ih = lookup-erase key wanted rest in
      ground (arith, ih, eq_iff first wanted, eq_iff first key, eq_iff key wanted)
