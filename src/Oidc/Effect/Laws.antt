-- ===== src/Oidc/Effect/Laws.antt =====
-- Inversion of a run that succeeded, one lemma for each way to build an action.
use goidc.Base.{Bool, true, false, if◌then◌else◌, Option, none, some, ◌≡◌, refl, ap}
use goidc.Oidc.Effect.{
  Error, Outcome, ok, err, panic, crash, pure, raise, fault, gets, check, continue, ◌>>=◌,
}

module _ {S A B : Type 0} where
  continue-ok :
      (r : Outcome A) (f : A → S → Outcome B × S) (s : S) {b : B} {t : S}
      → continue r f s ≡ (ok b, t)
      → (a : A) × (r ≡ ok a) × (f a s ≡ (ok b, t))
  continue-ok (ok a) f s h = (a, refl, h)
  continue-ok (err e) f s h = cc
  continue-ok panic f s h = cc
  continue-ok crash f s h = cc

  -- A sequence that returned a value ran both of its parts to values.
  pub >>=-ok :
      (m : S → Outcome A × S) (f : A → S → Outcome B × S) (s : S) {b : B} {t : S}
      → (m >>= f) s ≡ (ok b, t)
      → (a : A) × (u : S) × (m s ≡ (ok a, u)) × (f a u ≡ (ok b, t))
  unfolding ◌>>=◌
  >>=-ok m f s h =
      let (a, e, k) = continue-ok (m s).0 f (m s).1 h in (a, (m s).1, λ i. (e i, (m s).1), k)

module _ {S : Type 0} where
  -- A validation that let the handler go on found no error and changed nothing.
  pub check-ok :
      (e : Option Error) (s : S) {u : Unit {0}} {t : S}
      → check e s ≡ (ok u, t)
      → (e ≡ none) × (t ≡ s)
  unfolding check
  check-ok none s h = (refl, cc)
  check-ok (some e) s h = cc

module _ {S A : Type 0} where
  pub pure-ok : (a : A) (s : S) {b : A} {t : S} → pure a s ≡ (ok b, t) → (b ≡ a) × (t ≡ s)
  unfolding pure
  pure-ok a s h = (cc, cc)

  pub gets-ok : (f : S → A) (s : S) {b : A} {t : S} → gets f s ≡ (ok b, t) → (b ≡ f s) × (t ≡ s)
  unfolding gets
  gets-ok f s h = (cc, cc)

  pub raise-ok : (e : Error) (s : S) {b : A} {t : S} → raise e s ≡ (ok b, t) → ⊥
  unfolding raise
  raise-ok e s h = cc

-- The parts of a pair that is known.
pub pair-parts :
    {A B : Type 0} {a c : A} {b d : B} → ◌≡◌ {A = A × B} (a, b) (c, d) → (a ≡ c) × (b ≡ d)
pair-parts h = (ap (λ p. p.0) h, ap (λ p. p.1) h)

module _ {S B : Type 0} where
  -- What follows a validation starts in the state that the validation was given.
  pub check-then-ok :
      (e : Option Error) (m : S → Outcome B × S) (s : S) {b : B} {t : S}
      → (check e >>= λ _. m) s ≡ (ok b, t)
      → (e ≡ none) × (m s ≡ (ok b, t))
  unfolding check ◌>>=◌
  check-then-ok none m s h = (refl, h)
  check-then-ok (some e) m s h = cc

module _ {S A B : Type 0} where
  pub fault-then-ok :
      (r : Outcome A) (f : A → S → Outcome B × S) (s : S) {b : B} {t : S}
      → (fault r >>= f) s ≡ (ok b, t)
      → (a : A) × (r ≡ ok a) × (f a s ≡ (ok b, t))
  unfolding fault ◌>>=◌
  fault-then-ok (ok a) f s h = (a, refl, h)
  fault-then-ok (err e) f s h = cc
  fault-then-ok panic f s h = cc
  fault-then-ok crash f s h = cc

module _ {S A : Type 0} where
  pub fault-ok :
      (r : Outcome A) (s : S) {a : A} {t : S} → fault r s ≡ (ok a, t) → (r ≡ ok a) × (t ≡ s)
  unfolding fault
  fault-ok r s h = (cc, cc)

-- A validation that found no error had a test that failed.
pub test-failed : (b : Bool) (e : Error) → (if b then some e else none) ≡ none → b ≡ false
test-failed true e h = cc
test-failed false e h = refl

module _ {S B : Type 0} where
  -- A validation whose test fails lets the action after it run.
  pub passed-then :
      (b : Bool) (e : Error) (m : S → Outcome B × S) (s : S)
      → b ≡ false
      → (check (if b then some e else none) >>= λ _. m) s ≡ m s
  unfolding check ◌>>=◌
  passed-then true e m s h = cc
  passed-then false e m s h = refl

module _ {S A B : Type 0} (m : S → Outcome A × S) (f : A → S → Outcome B × S) where
  -- A sequence goes on from the value of its first part, and ends with its crash.
  pub ok-then : (s t : S) (a : A) → m s ≡ (ok a, t) → (m >>= f) s ≡ f a t
  unfolding ◌>>=◌
  ok-then s t a h = ap (λ r. continue r.0 f r.1) h

  pub crash-then : (s t : S) → m s ≡ (crash, t) → (m >>= f) s ≡ (crash, t)
  unfolding ◌>>=◌
  crash-then s t h = ap (λ r. continue r.0 f r.1) h
