-- ===== src/Authorize/Flow.antt =====
-- The authorization flow (internal/authorize/authorize.go).
pub mod Finished
pub mod Frame
pub mod Laws
use goidc.Base.{ℕ, ◌+◌, String, Bool, Option, none, some, is_empty, if◌then◌else◌, ◌==◌, ◌&&◌, not}
use goidc.Authn.{client}
use goidc.Authorize.Redirect.{redirect_response, redirect_error}
use goidc.Authorize.Request.{
  AuthorizationRequest, PushedAuthorizationRequest, PushedAuthorizationResponse,
  AuthorizationResponse, Scoped, on_state, empty_response, authorization_code_length,
  authorization_code_lifetime_secs,
}
use goidc.Authorize.Session.{init_authn_session, pushed_authn_session}
use goidc.Model.Client.{Client}
use goidc.Model.Const.GrantType
use goidc.Model.Const.ResponseType
use goidc.Model.Const.Status
use goidc.Model.Params.{AuthorizationParameters}
use goidc.Model.Session.{AuthnSession, TokenOptions, add_token_claims, authn_session_is_expired}
use goidc.Oidc.Config.{AuthnPolicy}
use goidc.Oidc.Context.{
  Context, State, Run, client_by_id, policy_by_id, save_authn_session, delete_authn_session,
  authn_session_written, authn_session_by_callback_id, or_internal_error,
}
use goidc.Oidc.Effect.{
  Error, Outcome, ok, err, panic, crash, base_error, redirection_error, description, pure, raise,
  fault, check, modify, ◌>>=◌, ◌>>◌,
}
use goidc.Oidc.ErrorCode
use goidc.Storage.{Fetched, found, failed}
use goidc.StrUtil.{contains_open_id}
use goidc.Token.AuthzCode.{store_grant_session}
use goidc.Token.IdToken.{make_id_token}
use goidc.Token.Make.{make, new_uuid, random_text}
use goidc.Token.Model.{GrantOptions, Token, IdTokenOptions, new_grant_session}

-- An error of a step, which becomes an internal error that is sent to the redirect URI.
abbrev pub redirected_by : {A S : Type 0} → AuthorizationParameters → Outcome A × S → Outcome A × S
redirected_by params (err e, s) =
    (err (redirection_error ErrorCode.internal_error (description e) params), s)
redirected_by params (ok a, s) = (ok a, s)
redirected_by params (panic, s) = (panic, s)
redirected_by params (crash, s) = (crash, s)

module _ (ctx : Context) where
  open ctx use {now, request}

  abbrev pub or_redirect : {A : Type 0} → AuthorizationParameters → Run ctx A → Run ctx A
  or_redirect params m s = redirected_by params (m s)

  abbrev saved : AuthnSession → Run ctx (Unit {0})
  saved session s = or_internal_error ctx (save_authn_session ctx session s)

  abbrev pub deleted : AuthnSession → Run ctx (Unit {0})
  deleted session s = or_internal_error ctx (delete_authn_session ctx session.id s)

  abbrev client_or : Error → Fetched Client → Outcome Client
  client_or e (failed message) = err e
  client_or e (found c) = ok c

  abbrev pub stored_client : String → Run ctx Client
  stored_client client_id s = elim (client_by_id ctx client_id s) [
    | failed message ↦ (err (base_error ErrorCode.internal_error message), s)
    | found c ↦ (ok c, s)
  ]

  abbrev failure_of : Option String → String
  failure_of none = "access denied"
  failure_of (some message) = message

  -- finishFlowWithFailure
  unfoldable pub finish_flow_with_failure : AuthnSession → Run ctx (Unit {0})
  unfolding delete_authn_session
  finish_flow_with_failure session = do
    or_redirect session.params (deleted session)
    raise (redirection_error ErrorCode.access_denied (failure_of session.error) session.params)

  -- stopFlowInProgress
  unfoldable pub stop_flow_in_progress : AuthnSession → Run ctx (Unit {0})
  unfolding save_authn_session
  stop_flow_in_progress session = saved session

  abbrev pub text_or_internal : Fetched String → Outcome String
  text_or_internal (failed message) = err (base_error ErrorCode.internal_error message)
  text_or_internal (found text) = ok text

  -- authorizeAuthnSession, with the session that it changes. A session that is deleted is saved again.
  unfoldable pub authorize_authn_session : AuthnSession → Run ctx AuthnSession
  unfolding ResponseType.has delete_authn_session random_text authn_session_written
      save_authn_session
  authorize_authn_session session = do
    (if ResponseType.has session.response_type ResponseType.code then pure tt else deleted session)
    drawn ← random_text ctx authorization_code_length
    code ← fault (text_or_internal drawn)
    let authorized = record session {
      authorization_code = code;
      expires_at_timestamp = now + authorization_code_lifetime_secs;
    }
    modify (authn_session_written ctx authorized)
    saved authorized
    pure authorized

  abbrev implicit_options : AuthnSession → Fetched TokenOptions → Outcome GrantOptions
  implicit_options session (failed message) =
      err (redirection_error ErrorCode.access_denied message session.params)
  implicit_options session (found token_options) = ok (record {
    grant_type = GrantType.implicit;
    subject = session.subject;
    client_id = session.client_id;
    granted_scopes = session.granted_scopes;
    granted_authorization_details = none;
    additional_id_token_claims = session.additional_id_token_claims;
    additional_user_info_claims = session.additional_user_info_claims;
    token_options = add_token_claims session.additional_token_claims token_options;
  })

  unfoldable pub new_implicit_grant_options : Client → AuthnSession → Outcome GrantOptions
  unfolding add_token_claims
  new_implicit_grant_options c session =
      implicit_options session (ctx.token_options c session.scopes)

  -- generateImplicitGrantSession
  unfoldable pub generate_implicit_grant_session : Token → GrantOptions → Run ctx (Unit {0})
  unfolding new_uuid store_grant_session new_grant_session
  generate_implicit_grant_session token o = do
    uuid ← new_uuid ctx
    store_grant_session ctx (new_grant_session uuid now o token)

  -- The access token of an implicit flow, in the response.
  abbrev pub with_token :
      Client → AuthnSession → AuthorizationResponse → Run ctx AuthorizationResponse
  with_token c session response =
      if ResponseType.has session.response_type ResponseType.token
      then (fault (new_implicit_grant_options c session) >>= λ o. make ctx c o >>= λ token.
          generate_implicit_grant_session token o >>= λ _.
          pure (record response { access_token = token.value; token_type = token.type }))
      else pure response

  abbrev pub with_id_token :
      Client → AuthnSession → AuthorizationResponse → Run ctx AuthorizationResponse
  with_id_token c session response =
      if contains_open_id session.granted_scopes
        && ResponseType.has session.response_type ResponseType.id_token
      then (make_id_token ctx c (record {
        subject = session.subject;
        additional_id_token_claims = session.additional_id_token_claims;
        access_token = response.access_token;
        authorization_code = session.authorization_code;
        state = session.state;
      })
          >>= λ made. pure (record response { id_token = made.0 }))
      else pure response

  -- finishFlowSuccessfully
  unfoldable pub finish_flow_successfully : AuthnSession → Run ctx (Unit {0})
  unfolding client_by_id authorize_authn_session new_implicit_grant_options make
      generate_implicit_grant_session make_id_token redirect_response ResponseType.has
  finish_flow_successfully session = do
    c ← or_redirect session.params (stored_client session.client_id)
    authorized ← or_redirect session.params (authorize_authn_session session)
    with_access ← or_redirect session.params (
        with_token c authorized (record empty_response {
          authorization_code = authorized.authorization_code;
          state = authorized.state;
        }))
    response ← or_redirect session.params (with_id_token c authorized with_access)
    redirect_response ctx c authorized.params response

  -- The status of a policy; a policy that is not there panics.
  abbrev status_of : Option AuthnPolicy → AuthnSession → Outcome (String × AuthnSession)
  status_of none session = panic
  status_of (some policy) session = ok (policy.authenticate request session)

  -- authenticate
  unfoldable pub authenticate : AuthnSession → Run ctx (Unit {0})
  unfolding policy_by_id authn_session_written finish_flow_successfully stop_flow_in_progress
      finish_flow_with_failure
  authenticate session = do
    answer ← fault (status_of (policy_by_id session.policy_id ctx.policies) session)
    modify (authn_session_written ctx answer.1)
    if answer.0 == Status.success
        then finish_flow_successfully answer.1
        else if answer.0 == Status.in_progress
        then stop_flow_in_progress answer.1
        else finish_flow_with_failure answer.1

  -- initAuthNoRedirect, with the client as it is left
  unfoldable pub init_auth_no_redirect : AuthorizationRequest → Scoped ctx (Unit {0})
  unfolding init_authn_session authenticate on_state
  init_auth_no_redirect req = do
    session ← init_authn_session ctx req
    on_state ctx (authenticate session)

  abbrev redirect_if_refused :
      Outcome (Unit {0}) × (Client × State ctx) → Outcome (Unit {0}) × State ctx
  redirect_if_refused (err e, cs) = redirect_error ctx cs.0 e cs.1
  redirect_if_refused (ok u, cs) = (ok u, cs.1)
  redirect_if_refused (panic, cs) = (panic, cs.1)
  redirect_if_refused (crash, cs) = (crash, cs.1)

  abbrev requesting_client : String → Run ctx Client
  requesting_client client_id s =
      if is_empty client_id
      then (err (base_error ErrorCode.invalid_client "invalid client_id"), s)
      else elim (client_by_id ctx client_id s) [
        | failed message ↦ (err (base_error ErrorCode.invalid_client "invalid client_id"), s)
        | found c ↦ (ok c, s)
      ]

  -- initAuth
  unfoldable pub init_auth : AuthorizationRequest → Run ctx (Unit {0})
  unfolding client_by_id init_auth_no_redirect redirect_error
  init_auth req = do
    c ← requesting_client req.client_id
    (λ s. redirect_if_refused (init_auth_no_redirect req (c, s)))

  abbrev redirect_if_failed :
      String → Outcome (Unit {0}) × State ctx → Outcome (Unit {0}) × State ctx
  redirect_if_failed client_id (err e, s) =
      (stored_client client_id >>= λ c. redirect_error ctx c e) s
  redirect_if_failed client_id (ok u, s) = (ok u, s)
  redirect_if_failed client_id (panic, s) = (panic, s)
  redirect_if_failed client_id (crash, s) = (crash, s)

  abbrev callback_session : String → Run ctx AuthnSession
  callback_session callback_id s = elim (authn_session_by_callback_id ctx callback_id s) [
    | failed message ↦ (err (base_error ErrorCode.invalid_request message), s)
    | found session ↦ (ok session, s)
  ]

  -- continueAuth
  unfoldable pub continue_auth : String → Run ctx (Unit {0})
  unfolding authn_session_by_callback_id authenticate redirect_error client_by_id
  continue_auth callback_id = do
    session ← callback_session callback_id
    check (
        if authn_session_is_expired now session
        then some (base_error ErrorCode.invalid_request "session timeout")
        else none)
    (λ s. redirect_if_failed session.client_id (authenticate session s))

  abbrev not_authenticated : Outcome Client × State ctx → Outcome Client × State ctx
  not_authenticated (err e, s) =
      (err (base_error ErrorCode.invalid_client "client not authenticated"), s)
  not_authenticated (ok c, s) = (ok c, s)
  not_authenticated (panic, s) = (panic, s)
  not_authenticated (crash, s) = (crash, s)

  abbrev scoped_by : {A : Type 0} → Client → Scoped ctx A → Run ctx A
  scoped_by c m s = let (r, cs) = m (c, s) in (r, cs.1)

  -- pushAuthorization
  unfoldable pub push_authorization :
      PushedAuthorizationRequest → Run ctx PushedAuthorizationResponse
  unfolding pushed_authn_session save_authn_session
  push_authorization req = do
    c ← (λ s. not_authenticated (client ctx req.client_authn s))
    session ← scoped_by c (pushed_authn_session ctx req)
    saved session
    pure (record { request_uri = session.request_uri; expires_in = ctx.par_lifetime_secs })
