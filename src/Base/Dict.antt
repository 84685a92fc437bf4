-- ===== src/Base/Dict.antt =====
-- Go's `map[string]V` as an association list: the first entry of a key counts. The order of the
-- entries stands for the order in which `range` visits them, which Go leaves open.
pub mod Laws
use mathlib.Core.Option.{Option, none, some}
use mathlib.Core.List.{List, [], ◌∷◌}
use Prim.Native.String.{String}
use text.Mathlib.Text.{◌==◌}
use goidc.Base.Tests.{if◌then◌else◌}

module _ {ℓ} {V : Type ℓ} where
  -- m[k] = v
  unfoldable pub insert : String → V → List (String × V) → List (String × V)
  insert key value [] = (key, value) ∷ []
  insert key value (entry ∷ entries) =
      let rest = insert key value entries in
      if entry.0 == key then (key, value) ∷ entries else entry ∷ rest

  -- v, ok := m[k]
  unfoldable pub lookup : String → List (String × V) → Option V
  lookup key [] = none
  lookup key (entry ∷ entries) =
      let rest = lookup key entries in if entry.0 == key then some entry.1 else rest

  -- delete(m, k)
  unfoldable pub erase : String → List (String × V) → List (String × V)
  erase k [] = []
  erase k ((j, v) ∷ m) = let rest = erase k m in if j == k then rest else (j, v) ∷ rest

  -- maps.Copy(dst, src): the entries of `src` are written over those of `dst`.
  unfoldable pub copy : List (String × V) → List (String × V) → List (String × V)
  copy [] dst = dst
  copy ((k, v) ∷ src) dst = copy src (insert k v dst)
