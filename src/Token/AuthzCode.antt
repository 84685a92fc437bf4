-- ===== src/Token/AuthzCode.antt =====
-- The authorization code grant (internal/token/authz_code.go).
pub mod Exchange
pub mod Consumed
pub mod Replay
use goidc.Base.{
  ℕ, ◌+◌, String, Bool, Option, none, some, List, is_empty, if◌then◌else◌, ◌==◌, ◌!=◌, not,
}
use goidc.Authn.{client}
use goidc.Model.Client.{Client, is_grant_type_allowed}
use goidc.Model.Const.GrantType
use goidc.Model.Value.{AuthorizationDetail}
use goidc.Model.Session.{AuthnSession, GrantSession, authn_session_is_expired, add_token_claims}
use goidc.Oidc.Context.{
  Context, State, Run, authn_session_by_authorization_code, delete_authn_session,
  save_grant_session, or_internal_error,
}
use goidc.Oidc.Effect.{
  Error, Outcome, ok, err, panic, crash, base_error, pure, raise, fault, check, ◌>>=◌, ◌>>◌,
}
use goidc.Oidc.ErrorCode
use goidc.StrUtil.{contains_open_id, contains_offline_access}
use goidc.Storage.{Fetched, found, failed}
use goidc.Token.Binding.{
  validate_token_binding_is_required, validate_token_binding_request_with_dpop,
}
use goidc.Token.IdToken.{make_id_token}
use goidc.Token.Make.{make, new_uuid, random_text, value_or_internal_error}
use goidc.Token.Model.{
  GrantOptions, Token, TokenRequest, TokenResponse, new_grant_session, new_id_token_options,
  refresh_token_length,
}
use goidc.Token.Pkce.{validate_pkce}

abbrev pub invalid_grant : String → Error
invalid_grant message = base_error ErrorCode.invalid_grant message

module _ (ctx : Context) where
  open ctx use {library, now}

  -- validateAuthorizationCodeGrantRequest
  unfoldable pub validate_authorization_code_grant_request :
      TokenRequest → Client → AuthnSession → Run ctx (Unit {0})
  validate_authorization_code_grant_request req c session = do
    check (
        if not (is_grant_type_allowed c GrantType.authorization_code)
        then some (base_error ErrorCode.unauthorized_client "invalid grant type")
        else none)
    check (
        if session.client_id != c.id
        then some (invalid_grant "the authorization code was not issued to the client")
        else none)
    check (
        if authn_session_is_expired now session
        then some (invalid_grant "the authorization code is expired")
        else none)
    check (
        if session.redirect_uri != req.redirect_uri
        then some (invalid_grant "invalid redirect_uri")
        else none)
    check (validate_pkce ctx req session)
    check (validate_token_binding_is_required ctx)
    fault (validate_token_binding_request_with_dpop ctx c)

  -- newAuthorizationCodeGrantOptions
  abbrev options_of : AuthnSession → Fetched goidc.Model.Session.TokenOptions → Outcome GrantOptions
  options_of session (failed message) = err (base_error ErrorCode.access_denied message)
  options_of session (found token_options) = ok (record {
    grant_type = GrantType.authorization_code;
    subject = session.subject;
    client_id = session.client_id;
    granted_scopes = session.granted_scopes;
    granted_authorization_details =
        if ctx.authorization_details_parameter_is_enabled
        then session.granted_authorization_details
        else none;
    additional_id_token_claims = session.additional_id_token_claims;
    additional_user_info_claims = session.additional_user_info_claims;
    token_options = add_token_claims session.additional_token_claims token_options;
  })

  unfoldable pub new_authorization_code_grant_options :
      TokenRequest → Client → AuthnSession → Outcome GrantOptions
  unfolding add_token_claims
  new_authorization_code_grant_options req c session =
      options_of session (ctx.token_options c req.scopes)

  -- refreshToken of refresh_token.go
  unfoldable pub refresh_token : Run ctx String
  unfolding random_text
  refresh_token = do
    drawn ← random_text ctx refresh_token_length
    fault (value_or_internal_error drawn)

  -- `ctx.SaveGrantSession`, and the error for the client where it fails.
  unfoldable pub store_grant_session : GrantSession → Run ctx (Unit {0})
  unfolding save_grant_session
  store_grant_session g s = or_internal_error ctx (save_grant_session ctx g s)

  -- The refresh token of a grant session, if its scopes ask for one.
  unfoldable pub add_refresh_token : GrantSession → Run ctx GrantSession
  unfolding refresh_token
  add_refresh_token g =
      if contains_offline_access g.granted_scopes
      then (refresh_token >>= λ token. pure (record g {
        refresh_token = token;
        expires_at_timestamp = now + ctx.refresh_token_lifetime_secs;
      }))
      else pure g

  -- generateAuthorizationCodeGrantSession
  unfoldable pub generate_authorization_code_grant_session :
      Token → GrantOptions → Run ctx GrantSession
  unfolding add_refresh_token new_uuid store_grant_session
  generate_authorization_code_grant_session token o = do
    uuid ← new_uuid ctx
    let g = new_grant_session uuid now o token
    g' ← add_refresh_token g
    store_grant_session g'
    pure g'

-- resultChannel, the value that a goroutine sends. `crashes` tells that the goroutine goes on, after
-- its value was received, to read a field of a nil pointer.
pub record Message (A : Type 0) : Type 0 where
  pub result : Option A
  pub error : Option Error
  pub crashes : Bool

-- The type assertion on the result panics on nil, before the error is looked at.
abbrev pub receive : {A : Type 0} → Message A → Outcome A
receive m = elim (m.result) [
  | none ↦ if m.crashes then crash else panic
  | some a ↦ elim (m.error) [ none ↦ ok a | some e ↦ err e ]
]

module _ (ctx : Context) where
  open ctx use {library, now}

  abbrev message_of_delete :
      AuthnSession → Option String × State ctx → Outcome (Message AuthnSession) × State ctx
  message_of_delete session (none, s) =
      (ok (record { result = some session; error = none; crashes = goidc.Base.false }), s)
  message_of_delete session (some message, s) = (
    ok (record {
      result = none;
      error = some (base_error ErrorCode.internal_error "could not delete session");
      crashes = goidc.Base.false;
    }),
    s,
  )

  -- getSessionByAuthorizationCode, a goroutine, up to its first message. A session that is not found
  -- does not end it: it goes on with a nil session.
  unfoldable pub get_session_by_authorization_code : String → Run ctx (Message AuthnSession)
  unfolding authn_session_by_authorization_code delete_authn_session
  get_session_by_authorization_code code s = elim (authn_session_by_authorization_code ctx code s) [
    | failed message ↦ (
      ok (record {
        result = none;
        error = some (invalid_grant "invalid authorization code");
        crashes = goidc.Base.true;
      }),
      s,
    )
    | found session ↦ message_of_delete session (delete_authn_session ctx session.id s)
  ]

  -- getAuthenticatedClientAndSession. The goroutine works on the sessions and the authentication on
  -- the clients, so that their order does not matter; its message is read only if the client has
  -- authenticated. Otherwise the handler returns without waiting; the state is then the one that the
  -- goroutine leaves when it has ended, which it does by itself.
  unfoldable pub get_authenticated_client_and_session :
      TokenRequest → Run ctx (Client × AuthnSession)
  unfolding get_session_by_authorization_code
  get_authenticated_client_and_session req = do
    message ← get_session_by_authorization_code req.authorization_code
    c ← client ctx req.client_authn
    session ← fault (receive message)
    pure (c, session)

  abbrev changed_scopes : AuthnSession → GrantOptions → String
  changed_scopes session o = if session.scopes != o.granted_scopes then o.granted_scopes else ""

  abbrev changed_details : AuthnSession → GrantOptions → Option (List AuthorizationDetail)
  changed_details session o =
      if library.details_equal session.authorization_details o.granted_authorization_details
      then none
      else o.granted_authorization_details

  abbrev pub id_token_if_open_id : Client → AuthnSession → GrantOptions → Run ctx String
  id_token_if_open_id c session o =
      if contains_open_id session.granted_scopes
      then (make_id_token ctx c (new_id_token_options o) >>= λ made. pure made.0)
      else pure ""

  -- The part of the handler that comes after the validations.
  unfoldable pub issue_for_session : TokenRequest → Client → AuthnSession → Run ctx TokenResponse
  unfolding make generate_authorization_code_grant_session make_id_token
      new_authorization_code_grant_options
  issue_for_session req c session = do
    o ← fault (new_authorization_code_grant_options ctx req c session)
    token ← make ctx c o
    g ← generate_authorization_code_grant_session ctx token o
    id_token ← id_token_if_open_id c session o
    pure (record {
      access_token = token.value;
      id_token = id_token;
      refresh_token = g.refresh_token;
      expires_in = o.token_lifetime_secs;
      token_type = token.type;
      scopes = changed_scopes session o;
      authorization_details = changed_details session o;
    })

  -- handleAuthorizationCodeGrantTokenCreation
  unfoldable pub handle_authorization_code_grant_token_creation :
      TokenRequest → Run ctx TokenResponse
  unfolding get_authenticated_client_and_session validate_authorization_code_grant_request
      issue_for_session
  handle_authorization_code_grant_token_creation req = do
    check (
        if is_empty req.authorization_code
        then some (base_error ErrorCode.invalid_request "invalid authorization code")
        else none)
    parties ← get_authenticated_client_and_session req
    validate_authorization_code_grant_request ctx req parties.0 parties.1
    issue_for_session req parties.0 parties.1
