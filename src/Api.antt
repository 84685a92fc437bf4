-- ===== src/Api.antt =====
-- What a handler writes to the user agent: Write, WriteJWT, WriteError and
-- ExecuteAuthorizeErrorPlugin of internal/oidc/context.go. The answers of the authorization
-- endpoint, which Redirect and RenderHTML send, are in the state.
pub mod Authorize
pub mod Dcr
pub mod Deleted
pub mod Discovery
pub mod Requests
pub mod Token
pub mod UserInfo
pub mod Laws
pub mod Replies
use goidc.Base.{ℕ, String, Bool, Option, none, some, List, [], ◌∷◌, ◌++◌, if◌then◌else◌}
use goidc.Authorize.Request.{PushedAuthorizationResponse}
use goidc.Dcr.Request.{DynamicClientResponse}
use goidc.Discovery.Document.{OpenIdConfiguration}
use goidc.Model.Session.{TokenInfo}
use goidc.Model.Value.{Claims}
use goidc.Oidc.Config.{Request}
use goidc.Oidc.Context.{Context, State}
use goidc.Oidc.Effect.{
  Error, Outcome, ok, err, panic, crash, Verdict, code, description, base_error,
}
use goidc.Oidc.ErrorCode
use goidc.Oidc.ErrorCode.{status_code}
use goidc.Oidc.Library.{Jwk}
use goidc.Token.Model.{TokenResponse}

-- What is written: the objects that handlers encode as JSON, and a JWT.
pub data Body : Type 0 where
  error_map : String → String → Body
  tokens : TokenResponse → Body
  introspected : TokenInfo → Body
  pushed : PushedAuthorizationResponse → Body
  registered : DynamicClientResponse → Body
  user_claims : Claims → Body
  metadata : OpenIdConfiguration → Body
  key_set : List Jwk → Body
  jwt : String → Body

-- http.ResponseWriter: the status and the content type that are sent, and what was written.
pub record Writer : Type 0 where
  pub status : Option ℕ
  pub content_type : String
  pub bodies : List Body

abbrev pub fresh : Writer
fresh = record { status = none; content_type = ""; bodies = [] }

-- The connection: whether the context of the request is done (as in `Request`), and the error of the encoder or of the
-- ResponseWriter for what is written, if there is one. Nothing of it is sent then.
pub record Connection : Type 0 where
  pub is_done : Bool
  pub send : Body → Option String

-- An error that a handler writes: an `oidc.Error`, or any other by its text.
pub data Failure : Type 0 where
  of_server : Error → Failure
  of_text : String → Failure

-- The first status that is written is the one that is sent, and the headers are sent with it.
abbrev pub write_header : ℕ → Writer → Writer
write_header n w = elim w.status [ none ↦ record w { status = some n } | some m ↦ w ]

abbrev pub set_content_type : String → Writer → Writer
set_content_type t w = elim w.status [ none ↦ record w { content_type = t } | some m ↦ w ]

abbrev pub sent : Body → Option String → Writer → Option String × Writer
sent body none w = (none, record w { bodies = w.bodies ++ body ∷ [] })
sent body (some e) w = (some e, w)

module _ (connection : Connection) where
  open connection use {is_done, send}

  unfoldable pub write : Body → ℕ → Writer → Option String × Writer
  write obj status w =
      if is_done
      then (none, w)
      else sent obj (send obj) (write_header status (set_content_type "application/json" w))

  unfoldable pub write_jwt : String → ℕ → Writer → Option String × Writer
  write_jwt token status w =
      if is_done
      then (none, w)
      else sent (jwt token) (send (jwt token))
          (write_header status (set_content_type "application/jwt" w))

  abbrev pub or_status_500 : Option String × Writer → Writer
  or_status_500 (none, w) = w
  or_status_500 (some e, w) = write_header 500 w

  unfoldable pub write_error : Failure → Writer → Writer
  unfolding write status_code code description
  write_error (of_text e) w = or_status_500 (write (error_map ErrorCode.internal_error e) 500 w)
  write_error (of_server e) w =
      or_status_500 (write (error_map (code e) (description e)) (status_code (code e)) w)

  -- `if err := ctx.Write(...); err != nil { ctx.WriteError(err) }`
  abbrev pub or_error : Option String × Writer → Writer
  or_error (none, w) = w
  or_error (some e, w) = write_error (of_text e) w

-- What is left of a request: how its handler ended, the writer and the state.
abbrev pub Answer : Context → Type 0
Answer ctx = Verdict × Writer × State ctx

module _ (ctx : Context) where
  open ctx use {request}

  -- The end of a handler, once the call of its operation has returned: the error is written, and a
  -- value is given to the rest of the handler.
  unfoldable pub answer :
      {A : Type 0}
      → Connection
      → (A → Writer → Writer)
      → Writer
      → Outcome A × State ctx
      → Answer ctx
  unfolding write_error
  answer connection rest w (ok a, s) = (ok tt, rest a w, s)
  answer connection rest w (err e, s) = (ok tt, write_error connection (of_server e) w, s)
  answer connection rest w (panic, s) = (panic, w, s)
  answer connection rest w (crash, s) = (crash, w, s)

  abbrev pub after_plugin : Option String → Option Error
  after_plugin none = none
  after_plugin (some e) = some (base_error ErrorCode.internal_error e)

  unfoldable pub execute_authorize_error_plugin : Error → Option Error
  execute_authorize_error_plugin e = elim ctx.config.authorize_error_plugin [
    | none ↦ some e
    | some plugin ↦ after_plugin (plugin request e)
  ]
