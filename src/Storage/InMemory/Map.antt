-- ===== src/Storage/InMemory/Map.antt =====
-- internal/storage/inmemory/func.go and the maps under the managers, for any type of values.
use goidc.Base.{String, Bool, Option, none, some, List, [], ◌∷◌, if◌then◌else◌, ◌==◌}

module _ {V : Type 0} where
  -- findFirst
  unfoldable pub find_first : (V → Bool) → List V → Option V
  find_first condition [] = none
  find_first condition (v ∷ vs) = if condition v then some v else find_first condition vs

  -- The loop `for _, s := range manager.Sessions` that collects the values.
  unfoldable pub values : List (String × V) → List V
  values [] = []
  values ((k, v) ∷ m) = v ∷ values m

  -- A write through a pointer that the map holds under the key `k`, if it does.
  unfoldable pub write_through : String → V → List (String × V) → List (String × V)
  write_through k v [] = []
  write_through k v ((j, w) ∷ m) = if j == k then (j, v) ∷ m else (j, w) ∷ write_through k v m
