-- ===== src/Api/Laws.antt =====
-- What the user agent gets from a handler (internal/oidc/context.go).
use goidc.Base.{ℕ, String, false, Option, none, some, List, [], ◌∷◌, ◌≤◌, ◌≡◌, refl, ap, ◌∙◌, arith}
use goidc.Api.{
  Body, error_map, jwt, Writer, fresh, Connection, of_server, of_text, write, write_jwt,
  write_error, or_status_500, Answer, answer,
}
use goidc.Oidc.Context.{Context, State}
use goidc.Oidc.Effect.{Error, Outcome, ok, err, panic, crash, Verdict, code, description}
use goidc.Oidc.ErrorCode
use goidc.Oidc.ErrorCode.{status_code}

-- What the user agent and the server get from a request: how its handler ended, the status and the
-- objects that were sent, and the state.
abbrev pub Reply : Context → Type 0
Reply ctx = Verdict × Option ℕ × List Body × State ctx

abbrev pub reply : (ctx : Context) → Answer ctx → Reply ctx
reply ctx a = (a.0, a.1.status, a.1.bodies, a.2)

-- The reply to an operation: its result with the status for success, the code and the description of
-- its error with the status of the code, and nothing where it panics.
abbrev pub reply_to :
    {A : Type 0} → (ctx : Context) → ℕ → (A → Body) → Outcome A × State ctx → Reply ctx
reply_to ctx n make (ok a, s) = (ok tt, some n, make a ∷ [], s)
reply_to ctx n make (err e, s) =
    (ok tt, some (status_code (code e)), error_map (code e) (description e) ∷ [], s)
reply_to ctx n make (panic, s) = (panic, none, [], s)
reply_to ctx n make (crash, s) = (crash, none, [], s)

pub status_code-bound : (ec : String) → 400 ≤ status_code ec
unfolding status_code
status_code-bound ec = ground arith

module _ (connection : Connection) (is_open : connection.is_done ≡ false)
    (sends : (b : Body) → connection.send b ≡ none) where
  abbrev with_body : String → Body → ℕ → Writer
  with_body t b n = record { status = some n; content_type = t; bodies = b ∷ [] }

  pub write-fresh :
      (b : Body) (n : ℕ) → write connection b n fresh ≡ (none, with_body "application/json" b n)
  unfolding write
  write-fresh b n = ground (arith, sends b)

  pub write_jwt-fresh :
      (token : String) (n : ℕ)
      → write_jwt connection token n fresh ≡ (none, with_body "application/jwt" (jwt token) n)
  unfolding write_jwt
  write_jwt-fresh token n = ground (arith, sends (jwt token))

  error-written :
      (e : Error)
      → write_error connection (of_server e) fresh
        ≡ with_body "application/json" (error_map (code e) (description e)) (status_code (code e))
  unfolding write_error
  error-written e =
      ap (or_status_500 connection)
        (write-fresh (error_map (code e) (description e)) (status_code (code e)))

  -- An error that is not an `oidc.Error` is sent as an internal error.
  pub text-written :
      (e : String)
      → write_error connection (of_text e) fresh
        ≡ with_body "application/json" (error_map ErrorCode.internal_error e) 500
  unfolding write_error
  text-written e =
      ap (or_status_500 connection) (write-fresh (error_map ErrorCode.internal_error e) 500)

  abbrev sent_of : {ctx : Context} → Verdict → State ctx → Writer → Reply ctx
  sent_of r s w = (r, w.status, w.bodies, s)

  pub refused-reply :
      (ctx : Context) (e : Error) (s : State ctx)
      → reply ctx (ok tt, write_error connection (of_server e) fresh, s)
        ≡ (ok tt, some (status_code (code e)), error_map (code e) (description e) ∷ [], s)
  refused-reply ctx e s = ap (sent_of {ctx = ctx} (ok tt) s) (error-written e)

  pub undecoded-reply :
      (ctx : Context) (e : String) (s : State ctx)
      → reply ctx (ok tt, write_error connection (of_text e) fresh, s)
        ≡ (ok tt, some 500, error_map ErrorCode.internal_error e ∷ [], s)
  undecoded-reply ctx e s = ap (sent_of {ctx = ctx} (ok tt) s) (text-written e)

  -- A handler that writes the result of its operation replies to the operation.
  pub answer-reply_to :
      {A : Type 0} (ctx : Context) (n : ℕ) (make : A → Body) (rest : A → Writer → Writer)
      → ((a : A)
          → (w : Writer) × (rest a fresh ≡ w) × (w.status ≡ some n) × (w.bodies ≡ make a ∷ []))
      → (r : Outcome A × State ctx)
      → reply ctx (answer ctx connection rest fresh r) ≡ reply_to ctx n make r
  unfolding answer
  answer-reply_to ctx n make rest h (ok a, s) =
      let (w, e, status, bodies) = h a in
      ap (sent_of {ctx = ctx} (ok tt) s) e ∙ (λ i. (ok tt, status i, bodies i, s))
  answer-reply_to ctx n make rest h (err e, s) = refused-reply ctx e s
  answer-reply_to ctx n make rest h (panic, s) = refl
  answer-reply_to ctx n make rest h (crash, s) = refl
