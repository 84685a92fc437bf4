-- ===== src/Oidc/Effect/Frame.antt =====
-- Actions that leave a part of the state alone, whether they return or fail: one rule for each way to
-- build an action.
use goidc.Base.{Bool, true, false, if◌then◌else◌, Option, none, some, ◌≡◌, refl, ◌∙◌}
use goidc.Oidc.Effect.{
  Error, Outcome, ok, err, panic, crash, pure, raise, fault, check, continue, ◌>>=◌,
}

-- `m` leaves alone what `view` sees of the state.
pub record Keeps {S A : Type 0} {X : Type 0} (view : S → X) (m : S → Outcome A × S) : Type 0 where
  pub at : (s : S) → view (m s).1 ≡ view s

module _ {S A X : Type 0} {view : S → X} where
  pub Keeps-pure : (a : A) → Keeps view (pure a)
  unfolding pure
  Keeps-pure a = record { at = λ s. refl }

  pub Keeps-raise : (e : Error) → Keeps view (raise {A = A} e)
  unfolding raise
  Keeps-raise e = record { at = λ s. refl }

  pub Keeps-fault : (r : Outcome A) → Keeps view (fault r)
  unfolding fault
  Keeps-fault r = record { at = λ s. refl }

  pub Keeps-if :
      (b : Bool) (m n : S → Outcome A × S)
      → Keeps view m
      → Keeps view n
      → Keeps view (if b then m else n)
  Keeps-if true m n km kn = km
  Keeps-if false m n km kn = kn

module _ {S X : Type 0} (view : S → X) where
  check-Keeps : (e : Option Error) (s : S) → view (check e s).1 ≡ view s
  unfolding check
  check-Keeps none s = refl
  check-Keeps (some e) s = refl

module _ {S X : Type 0} {view : S → X} where
  pub Keeps-check : (e : Option Error) → Keeps view (check e)
  Keeps-check e = record { at = check-Keeps view e }

module _ {S A B X : Type 0} {view : S → X} where
  continue-Keeps :
      (r : Outcome A) (f : A → S → Outcome B × S) (s : S)
      → ((a : A) → Keeps view (f a))
      → view (continue r f s).1 ≡ view s
  continue-Keeps (ok a) f s k = (k a).at s
  continue-Keeps (err e) f s k = refl
  continue-Keeps panic f s k = refl
  continue-Keeps crash f s k = refl

  pub Keeps-bind :
      (m : S → Outcome A × S) (f : A → S → Outcome B × S)
      → Keeps view m
      → ((a : A) → Keeps view (f a))
      → Keeps view (m >>= f)
  unfolding ◌>>=◌
  Keeps-bind m f km kf = record { at = λ s. continue-Keeps (m s).0 f (m s).1 kf ∙ km.at s }

module _ {S A B X : Type 0} {view : S → X} where
  -- What an action leaves is what its first part left, if the rest leaves it alone.
  pub after->>= :
      (m : S → Outcome A × S) (f : A → S → Outcome B × S) (s : S)
      → ((a : A) → Keeps view (f a))
      → view ((m >>= f) s).1 ≡ view (m s).1
  unfolding ◌>>=◌
  after->>= m f s kf = continue-Keeps {view = view} (m s).0 f (m s).1 kf

pub ruleset keeps_rules = (Keeps-pure, Keeps-raise, Keeps-fault, Keeps-if, Keeps-check, Keeps-bind)
