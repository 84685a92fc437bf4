-- ===== src/Token/ClientCredentials.antt =====
-- The client credentials grant (internal/token/client_credentials.go).
pub mod Permitted
pub mod Issued
use goidc.Base.{String, Option, none, some, is_empty, if◌then◌else◌, ◌!=◌, not}
use goidc.Authn.{client}
use goidc.Model.Client.{Client, is_grant_type_allowed, are_scopes_allowed}
use goidc.Model.Const.GrantType
use goidc.Model.Session.{TokenOptions}
use goidc.Oidc.Context.{Context, State, Run}
use goidc.Oidc.Effect.{
  Outcome, Verdict, ok, err, panic, crash, base_error, pure, fault, check, ◌>>=◌, ◌>>◌,
}
use goidc.Oidc.ErrorCode
use goidc.Storage.{Fetched, found, failed}
use goidc.Token.AuthzCode.{store_grant_session}
use goidc.Token.Binding.{
  validate_token_binding_is_required, validate_token_binding_request_with_dpop,
}
use goidc.Token.Make.{make, new_uuid}
use goidc.Token.Model.{
  GrantOptions, Token, TokenRequest, TokenResponse, empty_response, new_grant_session,
}

module _ (ctx : Context) where
  open ctx use {now}

  -- validateClientCredentialsGrantRequest
  unfoldable pub validate_client_credentials_grant_request :
      TokenRequest → Client → Run ctx (Unit {0})
  validate_client_credentials_grant_request req c = do
    check (
        if not (is_grant_type_allowed c GrantType.client_credentials)
        then some (base_error ErrorCode.unauthorized_client "invalid grant type")
        else none)
    check (
        if not (are_scopes_allowed c ctx.scopes req.scopes)
        then some (base_error ErrorCode.invalid_scope "invalid scope")
        else none)
    fault (validate_token_binding_request_with_dpop ctx c)
    check (validate_token_binding_is_required ctx)

  -- newClientCredentialsGrantOptions
  abbrev pub options_of : Client → TokenRequest → Fetched TokenOptions → Outcome GrantOptions
  options_of c req (failed message) = err (base_error ErrorCode.access_denied message)
  options_of c req (found token_options) = ok (record {
    grant_type = GrantType.client_credentials;
    subject = c.id;
    client_id = c.id;
    granted_scopes = if is_empty req.scopes then c.scopes else req.scopes;
    granted_authorization_details = none;
    additional_id_token_claims = goidc.Base.[];
    additional_user_info_claims = goidc.Base.[];
    token_options = token_options;
  })

  unfoldable pub new_client_credentials_grant_options : Client → TokenRequest → Outcome GrantOptions
  new_client_credentials_grant_options c req = options_of c req (ctx.token_options c req.scopes)

  -- generateClientCredentialsGrantSession
  unfoldable pub generate_client_credentials_grant_session :
      Token → GrantOptions → Run ctx (Unit {0})
  unfolding new_uuid store_grant_session new_grant_session
  generate_client_credentials_grant_session token o = do
    uuid ← new_uuid ctx
    store_grant_session ctx (new_grant_session uuid now o token)

  -- The handler answers an error of the save with an empty response and no error.
  abbrev pub respond :
      TokenRequest
      → Token
      → GrantOptions
      → Outcome (Unit {0}) × State ctx
      → Outcome TokenResponse × State ctx
  respond req token o (ok saved, s) = (
    ok (record {
      access_token = token.value;
      id_token = "";
      refresh_token = "";
      expires_in = o.token_lifetime_secs;
      token_type = token.type;
      scopes = if req.scopes != o.granted_scopes then o.granted_scopes else "";
      authorization_details = none;
    }),
    s,
  )
  respond req token o (err e, s) = (ok empty_response, s)
  respond req token o (panic, s) = (panic, s)
  respond req token o (crash, s) = (crash, s)

  unfoldable pub issue_for_client : TokenRequest → Token → GrantOptions → Run ctx TokenResponse
  unfolding generate_client_credentials_grant_session
  issue_for_client req token o s =
      respond req token o (generate_client_credentials_grant_session token o s)

  -- handleClientCredentialsGrantTokenCreation
  unfoldable pub handle_client_credentials_grant_token_creation :
      TokenRequest → Run ctx TokenResponse
  unfolding validate_client_credentials_grant_request new_client_credentials_grant_options
      issue_for_client
  handle_client_credentials_grant_token_creation req = do
    c ← client ctx req.client_authn
    validate_client_credentials_grant_request req c
    o ← fault (new_client_credentials_grant_options c req)
    token ← make ctx c o
    issue_for_client req token o
