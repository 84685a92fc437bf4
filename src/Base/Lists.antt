-- ===== src/Base/Lists.antt =====
-- Lists with native lengths, `slices.Contains`, and predicates by recursion on a list.
use Prim.Native.Nat.{ℕ, suc}
use Prim.Native.String.{String}
use mathlib.Core.Path.{◌≡◌, subst}
use mathlib.Core.Logic.{◌⊎◌, inl, inr}
use mathlib.Core.Bool.{Bool, true, false, ◌&&◌, ◌||◌}
use mathlib.Core.List.{List, [], ◌∷◌, ◌++◌}
use goidc.Base.Tests.{Bool-cases}
use native.Mathlib.Omega.{arith}
use text.Mathlib.Text.{◌==◌}
use text.Mathlib.TextEquality.{eq_iff}

module _ {ℓ} {A : Type ℓ} where
  abbrev pub length : List A → ℕ
  length [] = 0
  length (x ∷ xs) = suc (length xs)

  abbrev pub all : (A → Bool) → List A → Bool
  all p [] = true
  all p (x ∷ xs) = p x && all p xs

  abbrev pub any : (A → Bool) → List A → Bool
  any p [] = false
  any p (x ∷ xs) = p x || any p xs

  abbrev pub All {κ} : (A → Type κ) → List A → Type κ
  All P [] = Unit
  All P (x ∷ xs) = P x × All P xs

  -- Some element of the list satisfies `P`.
  abbrev pub Any : (A → Type 0) → List A → Type 0
  Any P [] = ⊥
  Any P (x ∷ xs) = P x ⊎ Any P xs

  pub Any-of_any : (p : A → Bool) (xs : List A) → any p xs ≡ true → Any (λ x. p x ≡ true) xs
  Any-of_any p [] h = cc
  Any-of_any p (x ∷ xs) h = ground (arith, Any-of_any p xs)

  pub All-of_all : (p : A → Bool) (xs : List A) → all p xs ≡ true → All (λ x. p x ≡ true) xs
  All-of_all p [] h = tt
  All-of_all p (x ∷ xs) h = ground (arith, All-of_all p xs)

-- slices.Contains on strings
abbrev pub contains : List String → String → Bool
contains [] s = false
contains (x ∷ xs) s = x == s || contains xs s

-- The list holds the text, as a predicate.
abbrev pub Holds : String → List String → Type 0
Holds s xs = Any (λ x. x ≡ s) xs

pub Holds-of_contains : (xs : List String) (s : String) → contains xs s ≡ true → Holds s xs
Holds-of_contains [] s h = cc
Holds-of_contains (x ∷ xs) s h = ground (arith, eq_iff x s, Holds-of_contains xs s)

pub contains-of_Holds : (xs : List String) (s : String) → Holds s xs → contains xs s ≡ true
contains-of_Holds [] s h = absurd h
contains-of_Holds (x ∷ xs) s h = ground (arith, eq_iff x s, contains-of_Holds xs s)

-- What holds of every text of a list holds of a text that the list contains.
pub All-contains :
    (P : String → Type 0) (xs : List String) (s : String) → All P xs → contains xs s ≡ true → P s
All-contains P [] s a h = cc
All-contains P (x ∷ xs) s a h = elim (Bool-cases (x == s)) [
  | inl e ↦ subst P ((eq_iff x s).0 e) a.0
  | inr e ↦ All-contains P xs s a.1 (ground arith)
]

module _ {ℓ κ} {A : Type ℓ} (P : A → Type κ) where
  -- The two parts of a statement about the elements of a concatenation.
  pub All-++ : (xs ys : List A) → All P (xs ++ ys) → All P xs × All P ys
  All-++ [] ys a = (tt, a)
  All-++ (x ∷ xs) ys a = let (l, r) = All-++ xs ys a.1 in ((a.0, l), r)
