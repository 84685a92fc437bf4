-- ===== src/Authn.antt =====
-- internal/authn: which client sends a request, and whether it proves so.
pub mod ClientId
pub mod Assertion
pub mod Certificates
pub mod Frame
pub mod Proven
use goidc.Base.{String, Bool, Option, none, some, is_empty, if◌then◌else◌, ◌==◌, ◌!=◌, ◌||◌}
use goidc.Model.Client.{Client}
use goidc.Model.Const.ClientAuthn
use goidc.Oidc.Context.{Context, State, Run, client_by_id}
use goidc.Oidc.Effect.{Error, Outcome, ok, err, base_error, pure, raise, check, ◌>>=◌, ◌>>◌}
use goidc.Oidc.ErrorCode
use goidc.Storage.{Fetched, found, failed}
use ClientId.{ClientAuthnRequest, get_client_id}
use Assertion.{authenticate_with_private_key_jwt, authenticate_with_client_secret_jwt}
use Certificates.{authenticate_with_self_signed_tls_certificate, authenticate_with_tls_certificate}

abbrev pub invalid_client : String → Error
invalid_client message = base_error ErrorCode.invalid_client message

module _ (ctx : Context) where
  open ctx use {library, request}

  unfoldable pub authenticate_with_none_authn : Client → ClientAuthnRequest → Option Error
  authenticate_with_none_authn c req =
      if c.id != req.client_id then some (invalid_client "invalid client") else none

  unfoldable pub validate_secret : Client → String → Option Error
  validate_secret c client_secret =
      if library.compare_hash_and_password c.hashed_secret client_secret
      then none
      else some (invalid_client "invalid secret")

  unfoldable pub authenticate_with_client_secret_post : Client → ClientAuthnRequest → Option Error
  unfolding validate_secret
  authenticate_with_client_secret_post c req =
      if (c.id != req.client_id) || is_empty req.client_secret
      then some (invalid_client "invalid client")
      else validate_secret c req.client_secret

  abbrev secret_of_basic : Client → Option (String × String) → Option Error
  secret_of_basic c none = some (invalid_client "invalid client")
  secret_of_basic c (some (client_id, client_secret)) =
      if c.id != client_id
      then some (invalid_client "invalid client")
      else validate_secret c client_secret

  unfoldable pub authenticate_with_client_secret_basic : Client → Option Error
  unfolding validate_secret
  authenticate_with_client_secret_basic c = secret_of_basic c request.basic_auth

  -- authenticateClient, which returns the client with what its methods did to it.
  unfoldable pub authenticate_client : Client → ClientAuthnRequest → Run ctx Client
  unfolding pure raise check
  authenticate_client c req =
      if c.authn_method == ClientAuthn.none_authn
      then check (authenticate_with_none_authn c req) >> pure c
      else if c.authn_method == ClientAuthn.secret_post
      then check (authenticate_with_client_secret_post c req) >> pure c
      else if c.authn_method == ClientAuthn.secret_basic
      then check (authenticate_with_client_secret_basic c) >> pure c
      else if c.authn_method == ClientAuthn.private_key_jwt
      then authenticate_with_private_key_jwt ctx c req
      else if c.authn_method == ClientAuthn.secret_jwt
      then check (authenticate_with_client_secret_jwt ctx c req) >> pure c
      else if c.authn_method == ClientAuthn.self_signed_tls
      then authenticate_with_self_signed_tls_certificate ctx c req
      else if c.authn_method == ClientAuthn.tls
      then check (authenticate_with_tls_certificate ctx c req) >> pure c
      else raise (invalid_client "invalid authentication method")

  abbrev pub client_or_error : Option String → Run ctx Client
  client_or_error none s = (err (invalid_client "invalid client"), s)
  client_or_error (some client_id) s = elim (client_by_id ctx client_id s) [
    | failed message ↦ (err (invalid_client "invalid client"), s)
    | found c ↦ (ok c, s)
  ]

  -- Client, the client of a request that has authenticated.
  unfoldable pub client : ClientAuthnRequest → Run ctx Client
  unfolding client_by_id
  client req = do c ← client_or_error (get_client_id ctx req); authenticate_client c req
