-- ===== src/Base/Dict/Laws.antt =====
-- The maps of Base/Dict behave as functions from keys to values.
use goidc.Base.{String, false, none, some, List, [], ◌∷◌, ◌==◌, ◌≡◌, refl, arith, eq_iff, eq_refl}
use goidc.Base.Dict.{insert, lookup, erase}

module _ {V : Type 0} where
  -- A key that was written is found with its value.
  pub insert-found :
      (key : String) (value : V) (entries : List (String × V))
      → lookup key (insert key value entries) ≡ some value
  unfolding lookup insert
  insert-found key value [] = ground (arith, eq_refl key)
  insert-found key value (entry ∷ entries) =
      ground (arith, eq_refl key, insert-found key value entries)

  -- Writing one key leaves the others alone.
  pub insert-others :
      (key other : String) (value : V) (entries : List (String × V))
      → (key == other) ≡ false
      → lookup other (insert key value entries) ≡ lookup other entries
  unfolding lookup insert
  insert-others key other value [] h = ground arith
  insert-others key other value (entry ∷ entries) h = ground (
    arith,
    insert-others key other value entries,
    eq_iff entry.0 key,
    eq_iff entry.0 other,
    eq_iff key other,
  )

  -- A key that was deleted is not found.
  pub erase-none :
      (key : String) (entries : List (String × V)) → lookup key (erase key entries) ≡ none
  unfolding lookup erase
  erase-none key [] = refl
  erase-none key ((j, v) ∷ entries) = ground (arith, erase-none key entries)

  -- Deleting one key leaves the others alone.
  pub erase-others :
      (key other : String) (entries : List (String × V))
      → (key == other) ≡ false
      → lookup other (erase key entries) ≡ lookup other entries
  unfolding lookup erase
  erase-others key other [] h = refl
  erase-others key other ((j, v) ∷ entries) h =
      ground (arith, erase-others key other entries, eq_iff j key, eq_iff j other, eq_iff key other)
