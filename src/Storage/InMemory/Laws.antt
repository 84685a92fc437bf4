-- ===== src/Storage/InMemory/Laws.antt =====
-- What the maps of the in-memory managers keep: every value stands under its own ID, and a value
-- that was found is in the map.
use mathlib.Core.Path.{subst}
use goidc.Base.{
  String, Bool, true, false, none, some, List, [], ◌∷◌, ◌≡◌, refl, ◌≢◌, arith, ◌==◌, eq_iff, All,
  Bool-cases, inl, inr,
}
use goidc.Base.Dict.{insert, erase}
use goidc.Storage.InMemory.Map.{find_first, values, write_through}

module _ {V : Type 0} where
  pub find_first-holds :
      (condition : V → Bool) (vs : List V) (v : V)
      → find_first condition vs ≡ some v
      → condition v ≡ true
  unfolding find_first
  find_first-holds condition [] v h = cc
  find_first-holds condition (w ∷ vs) v h = ground (arith, find_first-holds condition vs v)

  -- What holds of every value holds of the one that is found.
  pub find_first-All :
      (P : V → Type 0) (condition : V → Bool) (vs : List V) (v : V)
      → All P vs
      → find_first condition vs ≡ some v
      → P v
  unfolding find_first
  find_first-All P condition [] v a h = cc
  find_first-All P condition (w ∷ vs) v a h = elim (Bool-cases (condition w)) [
    | inl t ↦ let e : w ≡ v = ground arith in subst P e a.0
    | inr f ↦ find_first-All P condition vs v a.1 (ground arith)
  ]

  -- No value is found exactly when every value fails the condition.
  pub find_first-none :
      (condition : V → Bool) (vs : List V)
      → All (λ v. condition v ≡ false) vs
      → find_first condition vs ≡ none
  unfolding find_first
  find_first-none condition [] a = refl
  find_first-none condition (w ∷ vs) a = ground (arith, find_first-none condition vs)

  -- A value that is added is found by a condition that no other value satisfies.
  pub find_first-insert :
      (condition : V → Bool) (k : String) (v : V) (m : List (String × V))
      → All (λ w. condition w ≡ false) (values m)
      → condition v ≡ true
      → find_first condition (values (insert k v m)) ≡ some v
  unfolding find_first values insert
  find_first-insert condition k v [] h c = ground arith
  find_first-insert condition k v ((j, w) ∷ m) h c =
      ground (arith, find_first-insert condition k v m)

  -- What every value satisfies, every value that a deletion or an assignment leaves satisfies too.
  pub values-of_erase :
      (P : V → Type 0) (k : String) (m : List (String × V))
      → All P (values m)
      → All P (values (erase k m))
  unfolding values erase
  values-of_erase P k [] h = tt
  values-of_erase P k ((j, w) ∷ m) h = elim (Bool-cases (j == k)) [
    | inl e ↦ rw e (values-of_erase P k m h.1)
    | inr e ↦ rw e (h.0, values-of_erase P k m h.1)
  ]

  pub values-of_write_through :
      (P : V → Type 0) (k : String) (v : V) (m : List (String × V))
      → All P (values m)
      → P v
      → All P (values (write_through k v m))
  unfolding values write_through
  values-of_write_through P k v [] h p = tt
  values-of_write_through P k v ((j, w) ∷ m) h p = elim (Bool-cases (j == k)) [
    | inl e ↦ rw e (p, h.1)
    | inr e ↦ rw e (h.0, values-of_write_through P k v m h.1 p)
  ]

module _ {V : Type 0} (id : V → String) where
  -- Every value stands under its ID.
  abbrev pub IsKeyed : List (String × V) → Type 0
  IsKeyed m = All (λ e. e.0 ≡ id e.1) m

  pub insert-IsKeyed : (v : V) (m : List (String × V)) → IsKeyed m → IsKeyed (insert (id v) v m)
  unfolding insert
  insert-IsKeyed v [] h = (refl, tt)
  insert-IsKeyed v ((k, w) ∷ m) h = ground (arith, insert-IsKeyed v m, eq_iff k (id v))

  pub erase-IsKeyed : (k : String) (m : List (String × V)) → IsKeyed m → IsKeyed (erase k m)
  unfolding erase
  erase-IsKeyed k [] h = tt
  erase-IsKeyed k ((j, w) ∷ m) h = ground (arith, erase-IsKeyed k m, eq_iff j k)

  pub write_through-IsKeyed :
      (v : V) (m : List (String × V)) → IsKeyed m → IsKeyed (write_through (id v) v m)
  unfolding write_through
  write_through-IsKeyed v [] h = tt
  write_through-IsKeyed v ((k, w) ∷ m) h =
      ground (arith, write_through-IsKeyed v m, eq_iff k (id v))

  -- After a deletion no value has the ID that was deleted.
  pub values-erase :
      (k : String) (m : List (String × V)) → IsKeyed m → All (λ v. id v ≢ k) (values (erase k m))
  unfolding values erase
  values-erase k [] h = tt
  values-erase k ((j, w) ∷ m) h = ground (arith, values-erase k m, eq_iff j k)

  -- What every value satisfies, a value that is added satisfies too.
  pub values-insert :
      (P : V → Type 0) (k : String) (v : V) (m : List (String × V))
      → All P (values m)
      → P v
      → All P (values (insert k v m))
  unfolding values insert
  values-insert P k v [] h p = (p, tt)
  values-insert P k v ((j, w) ∷ m) h p = elim (Bool-cases (j == k)) [
    | inl t ↦ rw t (p, h.1)
    | inr f ↦ rw f (h.0, values-insert P k v m h.1 p)
  ]
