-- ===== src/Oidc/Effect.antt =====
-- What a call of a handler does: it changes a state and returns a value or an `oidc.Error`
-- (internal/oidc/error.go, internal/authorize/error.go), or it panics.
pub mod Laws
pub mod Frame
pub mod Ensures
use goidc.Base.{String, Bool, true, false, Option, none, some}
use goidc.Model.Params.{AuthorizationParameters}

-- The two implementations of the interface `oidc.Error`.
pub data Error : Type 0 where
  base_error : String → String → Error
  redirection_error : String → String → AuthorizationParameters → Error

unfoldable pub code : Error → String
code (base_error c d) = c
code (redirection_error c d p) = c

unfoldable pub description : Error → String
description (base_error c d) = d
description (redirection_error c d p) = d

-- `panic` is one in the handler's own goroutine, which net/http recovers; `crash` is one in another
-- goroutine, which ends the process.
pub data Outcome {ℓ} (A : Type ℓ) : Type ℓ where
  ok : A → Outcome A
  err : Error → Outcome A
  panic : Outcome A
  crash : Outcome A

-- The outcome of a call that returns only an error.
abbrev pub Verdict : Type 0
Verdict = Outcome (Unit {0})

abbrev pub Exec {ℓ} : Type ℓ → Type ℓ → Type ℓ
Exec S A = S → Outcome A × S

module _ {ℓ} {S A : Type ℓ} where
  unfoldable pub pure : A → Exec S A
  pure a s = (ok a, s)

  unfoldable pub raise : Error → Exec S A
  raise e s = (err e, s)

  unfoldable pub fault : Outcome A → Exec S A
  fault r s = (r, s)

  unfoldable pub gets : (S → A) → Exec S A
  gets f s = (ok (f s), s)

-- `if err != nil { return err }` after a validation, whose result `nil` is `none`.
unfoldable pub check {ℓ} : {S : Type ℓ} → Option Error → S → Outcome (Unit {0}) × S
check none s = (ok tt, s)
check (some e) s = (err e, s)

unfoldable pub modify {ℓ} : {S : Type ℓ} → (S → S) → S → Outcome (Unit {0}) × S
modify f s = (ok tt, f s)

module _ {ℓ κ} {S : Type ℓ} {A B : Type κ} where
  abbrev pub continue : Outcome A → (A → S → Outcome B × S) → S → Outcome B × S
  continue (ok a) f s = f a s
  continue (err e) f s = (err e, s)
  continue panic f s = (panic, s)
  continue crash f s = (crash, s)

  infixl 5 ◌>>=◌
  unfoldable pub ◌>>=◌ : (S → Outcome A × S) → (A → S → Outcome B × S) → S → Outcome B × S
  ◌>>=◌ m f s = let (r, s') = m s in continue r f s'

infixl 5 ◌>>◌
abbrev pub ◌>>◌ {ℓ} :
    {S : Type ℓ} {B : Type 0}
    → (S → Outcome (Unit {0}) × S)
    → (S → Outcome B × S)
    → S
    → Outcome B × S
m >> n = m >>= λ _. n
