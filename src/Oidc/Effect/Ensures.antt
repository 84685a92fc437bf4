-- ===== src/Oidc/Effect/Ensures.antt =====
-- Actions that keep a property of the state, whether they return or fail, and whose value, if they
-- return one, has a property: one rule for each way to build an action.
use goidc.Base.{Bool, true, false, if◌then◌else◌, Option, none, some, ◌≡◌, refl, sym, subst}
use goidc.Oidc.Effect.{
  Error, Outcome, ok, err, panic, crash, pure, raise, fault, check, modify, continue, ◌>>=◌,
}
use goidc.Oidc.Effect.Frame.{Keeps}

-- The value of an outcome, if there is one, satisfies `Q`.
abbrev pub Returns : {A : Type 0} → (A → Type 0) → Outcome A → Type 0
Returns Q (ok a) = Q a
Returns Q (err e) = Unit
Returns Q panic = Unit
Returns Q crash = Unit

pub record Ensures {S A : Type 0} (P : S → Type 0) (Q : A → Type 0) (m : S → Outcome A × S)
    : Type 0 where
  pub at : (s : S) → P s → P (m s).1 × Returns Q (m s).0

returned : {A : Type 0} (r : Outcome A) → Returns (λ a. r ≡ ok a) r
returned (ok a) = refl
returned (err e) = tt
returned panic = tt
returned crash = tt

weakened :
    {A : Type 0} {Q R : A → Type 0} (r : Outcome A)
    → Returns Q r
    → ((a : A) → Q a → R a)
    → Returns R r
weakened (ok a) q k = k a q
weakened (err e) q k = tt
weakened panic q k = tt
weakened crash q k = tt

module _ {S A : Type 0} {P : S → Type 0} where
  pub Ensures-pure : {Q : A → Type 0} (a : A) → Q a → Ensures P Q (pure a)
  unfolding pure
  Ensures-pure a q = record { at = λ s p. (p, q) }

  pub Ensures-raise : {Q : A → Type 0} (e : Error) → Ensures P Q (raise e)
  unfolding raise
  Ensures-raise e = record { at = λ s p. (p, tt) }

  pub Ensures-if :
      {Q : A → Type 0} (b : Bool) (m n : S → Outcome A × S)
      → (b ≡ true → Ensures P Q m)
      → (b ≡ false → Ensures P Q n)
      → Ensures P Q (if b then m else n)
  Ensures-if true m n km kn = km refl
  Ensures-if false m n km kn = kn refl

  pub Ensures-weaken :
      {Q R : A → Type 0} (m : S → Outcome A × S)
      → Ensures P Q m
      → ((a : A) → Q a → R a)
      → Ensures P R m
  Ensures-weaken m e k = record { at = λ s p. let (p', q) = e.at s p in (p', weakened (m s).0 q k) }

  pub Ensures-fault : (r : Outcome A) → Ensures P (λ a. r ≡ ok a) (fault r)
  unfolding fault
  Ensures-fault r = record { at = λ s p. (p, returned r) }

module _ {S : Type 0} {P : S → Type 0} where
  pub Ensures-check : (e : Option Error) → Ensures P (λ u. e ≡ none) (check e)
  unfolding check
  Ensures-check none = record { at = λ s p. (p, refl) }
  Ensures-check (some e) = record { at = λ s p. (p, tt) }

module _ {S : Type 0} {P : S → Type 0} where
  pub Ensures-modify : (f : S → S) → ((s : S) → P s → P (f s)) → Ensures P (λ u. Unit) (modify f)
  unfolding modify
  Ensures-modify f k = record { at = λ s p. (k s p, tt) }

module _ {S A B : Type 0} {P : S → Type 0} where
  continue-Ensures :
      {Q : A → Type 0} {R : B → Type 0} (r : Outcome A) (f : A → S → Outcome B × S) (s : S)
      → P s
      → Returns Q r
      → ((a : A) → Q a → Ensures P R (f a))
      → P (continue r f s).1 × Returns R (continue r f s).0
  continue-Ensures (ok a) f s p q k = (k a q).at s p
  continue-Ensures (err e) f s p q k = (p, tt)
  continue-Ensures panic f s p q k = (p, tt)
  continue-Ensures crash f s p q k = (p, tt)

  pub Ensures-bind :
      {Q : A → Type 0} {R : B → Type 0} (m : S → Outcome A × S) (f : A → S → Outcome B × S)
      → Ensures P Q m
      → ((a : A) → Q a → Ensures P R (f a))
      → Ensures P R (m >>= f)
  unfolding ◌>>=◌
  Ensures-bind m f km kf = record {
    at = λ s p. let (p', q) = km.at s p in continue-Ensures (m s).0 f (m s).1 p' q kf;
  }

pub any-value : {A : Type 0} (r : Outcome A) → Returns (λ a. Unit) r
any-value (ok a) = tt
any-value (err e) = tt
any-value panic = tt
any-value crash = tt

module _ {S A X : Type 0} (view : S → X) (R : X → Type 0) where
  -- What leaves a part of the state alone keeps a property of that part.
  pub Ensures-of_Keeps :
      (m : S → Outcome A × S) → Keeps view m → Ensures (λ s. R (view s)) (λ a. Unit) m
  Ensures-of_Keeps m k = record { at = λ s p. (subst R (sym (k.at s)) p, any-value (m s).0) }
