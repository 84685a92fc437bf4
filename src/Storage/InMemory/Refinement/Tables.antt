-- ===== src/Storage/InMemory/Refinement/Tables.antt =====
-- Operations on a map of objects under their IDs, and on the function that the map stands for.
use goidc.Base.{
  String, false, Option, none, some, List, [], ◌∷◌, ◌==◌, ◌≡◌, refl, ap, ◌∙◌, arith, eq_iff, All,
  Bool-cases, inl, inr, subst, if◌then◌else◌,
}
use goidc.Base.Dict.{lookup, insert, erase}
use goidc.Base.Dict.Laws.{insert-found, insert-others, erase-none, erase-others}
use goidc.Storage.InMemory.Map.{write_through}

-- The calls that change a store; `written` is an assignment to an object that the store handed out.
pub data Operation (V : Type 0) : Type 0 where
  save : V → Operation V
  delete : String → Operation V
  written : V → Operation V

abbrev pub Table : Type 0 → Type 0
Table V = String → Option V

abbrev pub empty_table : {V : Type 0} → Table V
empty_table k = none

abbrev replaced : {V : Type 0} → V → Option V → Option V
replaced v none = none
replaced v (some w) = some v

module _ {V : Type 0} (id : V → String) where
  -- What an operation makes of the function.
  abbrev pub after : Operation V → Table V → Table V
  after (save v) table k = if id v == k then some v else table k
  after (delete j) table k = if j == k then none else table k
  after (written v) table k = if id v == k then replaced v (table k) else table k

  abbrev pub after_all : List (Operation V) → Table V → Table V
  after_all [] table = table
  after_all (op ∷ ops) table = after_all ops (after op table)

  -- What it makes of the map.
  abbrev pub perform : Operation V → List (String × V) → List (String × V)
  perform (save v) m = insert (id v) v m
  perform (delete k) m = erase k m
  perform (written v) m = write_through (id v) v m

  abbrev pub perform_all : List (Operation V) → List (String × V) → List (String × V)
  perform_all [] m = m
  perform_all (op ∷ ops) m = perform_all ops (perform op m)

  written-refines :
      (v : V) (m : List (String × V)) (k : String)
      → lookup k (write_through (id v) v m)
        ≡ (if id v == k then replaced v (lookup k m) else lookup k m)
  unfolding lookup write_through
  written-refines v [] k = ground arith
  written-refines v ((j, w) ∷ m) k =
      ground (arith, written-refines v m k, eq_iff j (id v), eq_iff j k, eq_iff (id v) k)

  perform-refines :
      (op : Operation V) (m : List (String × V)) (k : String)
      → lookup k (perform op m) ≡ after op (λ j. lookup j m) k
  perform-refines (save v) m k = elim (Bool-cases (id v == k)) [
    | inl e ↦ rw e (
        subst (λ j. lookup j (insert (id v) v m) ≡ some v) ((eq_iff (id v) k).0 e)
          (insert-found (id v) v m))
    | inr e ↦ rw e (insert-others (id v) k v m e)
  ]
  perform-refines (delete j) m k = elim (Bool-cases (j == k)) [
    | inl e ↦ rw e (subst (λ i. lookup i (erase j m) ≡ none) ((eq_iff j k).0 e) (erase-none j m))
    | inr e ↦ rw e (erase-others j k m e)
  ]
  perform-refines (written v) m k = written-refines v m k

  after-same :
      (op : Operation V) (f g : Table V)
      → ((k : String) → f k ≡ g k)
      → (k : String) → after op f k ≡ after op g k
  after-same (save v) f g h k = ap (λ o. if id v == k then some v else o) (h k)
  after-same (delete j) f g h k = ap (λ o. if j == k then none else o) (h k)
  after-same (written v) f g h k = ap (λ o. if id v == k then replaced v o else o) (h k)

  after_all-same :
      (ops : List (Operation V)) (f g : Table V)
      → ((k : String) → f k ≡ g k)
      → (k : String) → after_all ops f k ≡ after_all ops g k
  after_all-same [] f g h k = h k
  after_all-same (op ∷ ops) f g h k =
      after_all-same ops (after op f) (after op g) (after-same op f g h) k

  -- The map that a sequence of operations leaves stands for the function that it leaves.
  pub perform_all-refines :
      (ops : List (Operation V)) (m : List (String × V)) (k : String)
      → lookup k (perform_all ops m) ≡ after_all ops (λ j. lookup j m) k
  perform_all-refines [] m k = refl
  perform_all-refines (op ∷ ops) m k =
      perform_all-refines ops (perform op m) k
      ∙ after_all-same ops (λ j. lookup j (perform op m)) (after op (λ j. lookup j m))
          (perform-refines op m) k

module _ {V : Type 0} where
  -- No entry has the key.
  abbrev pub IsFresh : String → List (String × V) → Type 0
  IsFresh k m = All (λ e. (e.0 == k) ≡ false) m

  -- The keys are different.
  abbrev pub IsDistinct : List (String × V) → Type 0
  IsDistinct [] = Unit
  IsDistinct ((k, v) ∷ m) = IsFresh k m × IsDistinct m

  insert-IsFresh :
      (j k : String) (v : V) (m : List (String × V))
      → (k == j) ≡ false
      → IsFresh j m
      → IsFresh j (insert k v m)
  unfolding insert
  insert-IsFresh j k v [] n h = (n, tt)
  insert-IsFresh j k v ((i, w) ∷ m) n h = ground (arith, insert-IsFresh j k v m)

  pub insert-IsDistinct :
      (k : String) (v : V) (m : List (String × V)) → IsDistinct m → IsDistinct (insert k v m)
  unfolding insert
  insert-IsDistinct k v [] h = (tt, tt)
  insert-IsDistinct k v ((j, w) ∷ m) h = elim (Bool-cases (j == k)) [
    | inl e ↦ rw e (subst (λ i. IsFresh i m) ((eq_iff j k).0 e) h.0, h.1)
    | inr e ↦ rw e (
      insert-IsFresh j k v m (ground (arith, eq_iff k j, eq_iff j k)) h.0,
      insert-IsDistinct k v m h.1,
    )
  ]

  erase-IsFresh : (j k : String) (m : List (String × V)) → IsFresh j m → IsFresh j (erase k m)
  unfolding erase
  erase-IsFresh j k [] h = tt
  erase-IsFresh j k ((i, w) ∷ m) h = ground (arith, erase-IsFresh j k m)

  pub erase-IsDistinct :
      (k : String) (m : List (String × V)) → IsDistinct m → IsDistinct (erase k m)
  unfolding erase
  erase-IsDistinct k [] h = tt
  erase-IsDistinct k ((j, w) ∷ m) h = elim (Bool-cases (j == k)) [
    | inl e ↦ rw e (erase-IsDistinct k m h.1)
    | inr e ↦ rw e (erase-IsFresh j k m h.0, erase-IsDistinct k m h.1)
  ]

  written-IsFresh :
      (j k : String) (v : V) (m : List (String × V)) → IsFresh j m → IsFresh j (write_through k v m)
  unfolding write_through
  written-IsFresh j k v [] h = tt
  written-IsFresh j k v ((i, w) ∷ m) h = ground (arith, written-IsFresh j k v m)

  pub written-IsDistinct :
      (k : String) (v : V) (m : List (String × V)) → IsDistinct m → IsDistinct (write_through k v m)
  unfolding write_through
  written-IsDistinct k v [] h = tt
  written-IsDistinct k v ((j, w) ∷ m) h = elim (Bool-cases (j == k)) [
    | inl e ↦ rw e h
    | inr e ↦ rw e (written-IsFresh j k v m h.0, written-IsDistinct k v m h.1)
  ]
