-- ===== src/Tests/Exchange.antt =====
-- The grants at the sample server.
use goidc.Base.{◌≡◌, refl}
use goidc.Oidc.Context.{State, authn_session_by_authorization_code, delete_authn_session}
use goidc.Oidc.Effect.{Outcome, crash}
use goidc.Storage.{failed}
use goidc.Tests.Runs.{runs}
use goidc.Tests.Sample.{
  ctx, before, config, request, library, token_request, session, value_or, shop,
}
use goidc.Token.AuthzCode.{handle_authorization_code_grant_token_creation}
use goidc.Token.AuthzCode.Consumed.{session-consumed}
use goidc.Token.AuthzCode.Replay.{code-not-replayed, unknown-code-crashes}
use goidc.Token.Model.{TokenRequest, TokenResponse, empty_response}

abbrev exchanged : Outcome TokenResponse × State ctx
exchanged = handle_authorization_code_grant_token_creation ctx token_request before

abbrev exchange_response : TokenResponse
exchange_response = value_or empty_response exchanged.0

-- The redirect URI differs, so that no tokens are issued.
abbrev misdirected : TokenRequest
misdirected = record token_request { redirect_uri = "https://other.example" }

session-consumed_example :
    (handle_authorization_code_grant_token_creation ctx misdirected before).1.authn_sessions
    ≡ (delete_authn_session ctx "session" before).1.authn_sessions
unfolding runs
session-consumed_example = session-consumed ctx misdirected before session (λ p. cc) refl

code-not-replayed_example :
    authn_session_by_authorization_code ctx "code"
      (handle_authorization_code_grant_token_creation ctx misdirected before).1
    ≡ failed "entity not found"
unfolding runs
code-not-replayed_example =
    code-not-replayed config request library 100 misdirected before session (λ p. cc) refl
      (refl, tt) (λ p. refl, tt)

abbrev guessed : TokenRequest
guessed = record token_request { authorization_code = "guess" }

unknown-code-crashes_example :
    handle_authorization_code_grant_token_creation ctx guessed before ≡ (crash, before)
unfolding runs
unknown-code-crashes_example =
    unknown-code-crashes ctx guessed shop "entity not found" before before (λ p. cc) refl refl
