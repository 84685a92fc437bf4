-- ===== src/Storage/InMemory/Refinement/Queries.antt =====
-- Searches in a map whose objects stand under their IDs, each ID once.
use goidc.Base.{
  String, Bool, true, false, Option, none, some, List, [], ◌∷◌, ◌==◌, ◌≡◌, refl, sym, ◌∙◌, arith,
  eq_iff, Bool-cases, inl, inr, subst,
}
use goidc.Base.Dict.{lookup}
use goidc.Storage.{Fetched, found, failed}
use goidc.Storage.InMemory.{entity_or_error}
use goidc.Storage.InMemory.Laws.{
  IsKeyed, insert-IsKeyed, erase-IsKeyed, write_through-IsKeyed, find_first-holds,
}
use goidc.Storage.InMemory.Map.{find_first, values}
use goidc.Storage.InMemory.Refinement.Tables.{
  Operation, save, delete, written, Table, perform, perform_all, after_all, empty_table,
  perform_all-refines, IsFresh, IsDistinct, insert-IsDistinct, erase-IsDistinct, written-IsDistinct,
}

-- The answer of a search in a table: an object that the table has under its ID and that satisfies
-- the condition, or an error if the table has none.
pub data IsAnswer {V : Type 0} (id : V → String) (condition : V → Bool) (table : Table V)
    : Fetched V → Type 0 where
  answered :
      (v : V) → table (id v) ≡ some v → condition v ≡ true → IsAnswer id condition table (found v)
  missed :
      (message : String)
      → ((k : String) (v : V) → table k ≡ some v → condition v ≡ false)
      → IsAnswer id condition table (failed message)

module _ {V : Type 0} (id : V → String) where
  abbrev IsTable : List (String × V) → Type 0
  IsTable m = IsKeyed id m × IsDistinct m

  perform-IsTable :
      (op : Operation V) (m : List (String × V)) → IsTable m → IsTable (perform id op m)
  perform-IsTable (save v) m (k, d) = (insert-IsKeyed id v m k, insert-IsDistinct (id v) v m d)
  perform-IsTable (delete j) m (k, d) = (erase-IsKeyed id j m k, erase-IsDistinct j m d)
  perform-IsTable (written v) m (k, d) =
      (write_through-IsKeyed id v m k, written-IsDistinct (id v) v m d)

  perform_all-IsTable :
      (ops : List (Operation V)) (m : List (String × V))
      → IsTable m
      → IsTable (perform_all id ops m)
  perform_all-IsTable [] m h = h
  perform_all-IsTable (op ∷ ops) m h =
      perform_all-IsTable ops (perform id op m) (perform-IsTable op m h)

  fresh-missing : (k : String) (m : List (String × V)) → IsFresh k m → lookup k m ≡ none
  unfolding lookup
  fresh-missing k [] h = refl
  fresh-missing k ((j, v) ∷ m) h = ground (arith, fresh-missing k m)

  found-other :
      (j k : String) (v w : V) (m : List (String × V))
      → IsFresh j m
      → lookup k m ≡ some w
      → (j == k) ≡ false
  found-other j k v w m h e = elim (Bool-cases (j == k)) [
    | inl t ↦ absurd (
        let missing : lookup k m ≡ none =
          subst (λ i. lookup i m ≡ none) ((eq_iff j k).0 t) (fresh-missing j m h) in
        cc)
    | inr f ↦ f
  ]

  query-found :
      (condition : V → Bool) (m : List (String × V)) (w : V)
      → IsTable m
      → find_first condition (values m) ≡ some w
      → lookup (id w) m ≡ some w
  unfolding lookup find_first values
  query-found condition [] w h e = cc
  query-found condition ((j, v) ∷ m) w ((k, ks), (d, ds)) e = elim (Bool-cases (condition v)) [
    | inl t ↦
        let same : v ≡ w = ground arith in
        subst (λ u. lookup (id u) ((j, v) ∷ m) ≡ some u) same (rw ((eq_iff j (id v)).1 k) refl)
    | inr f ↦
        let later = query-found condition m w (ks, ds) (ground arith) in
        rw (found-other j (id w) v w m d later) later
  ]

  query-none :
      (condition : V → Bool) (m : List (String × V)) (k : String) (w : V)
      → find_first condition (values m) ≡ none
      → lookup k m ≡ some w
      → condition w ≡ false
  unfolding lookup find_first values
  query-none condition [] k w h e = cc
  query-none condition ((j, v) ∷ m) k w h e = elim (Bool-cases (condition v)) [
    | inl t ↦ absurd (let hit : some v ≡ none = ground arith in cc)
    | inr f ↦ elim (Bool-cases (j == k)) [
      | inl same ↦ let u : v ≡ w = ground arith in subst (λ x. condition x ≡ false) u f
      | inr other ↦ query-none condition m k w (ground arith) (ground arith)
    ]
  ]

  search-IsAnswer :
      (condition : V → Bool) (m : List (String × V)) (r : Option V)
      → IsTable m
      → find_first condition (values m) ≡ r
      → IsAnswer id condition (λ k. lookup k m) (entity_or_error r)
  search-IsAnswer condition m none h e =
      IsAnswer.missed "entity not found" (λ k v. query-none condition m k v e)
  search-IsAnswer condition m (some v) h e =
      IsAnswer.answered v (query-found condition m v h e)
        (find_first-holds condition (values m) v e)

  IsAnswer-same :
      (condition : V → Bool) (f g : Table V) (r : Fetched V)
      → ((k : String) → f k ≡ g k)
      → IsAnswer id condition f r
      → IsAnswer id condition g r
  IsAnswer-same condition f g (found v) h (IsAnswer.answered v' a b) =
      IsAnswer.answered v (sym (h (id v)) ∙ a) b
  IsAnswer-same condition f g (failed message) h (IsAnswer.missed message' a) =
      IsAnswer.missed message (λ k v e. a k v (h k ∙ e))

  -- After any sequence of operations on an empty map, a search is answered as by the function that
  -- the sequence leaves.
  pub search-refines :
      (condition : V → Bool) (ops : List (Operation V))
      → IsAnswer id condition
          (after_all id ops empty_table)
          (entity_or_error (find_first condition (values (perform_all id ops []))))
  unfolding lookup
  search-refines condition ops =
      let m = perform_all id ops [] in
      IsAnswer-same condition (λ k. lookup k m) (after_all id ops empty_table)
        (entity_or_error (find_first condition (values m))) (perform_all-refines id ops [])
        (search-IsAnswer condition m (find_first condition (values m))
          (perform_all-IsTable ops [] (tt, tt)) refl)
