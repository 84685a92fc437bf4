-- ===== src/Authorize/Session.antt =====
-- How an authorization request becomes a session (internal/authorize/session.go).
pub mod Par
use goidc.Base.{
  ℕ, ◌+◌, String, Bool, true, false, Option, none, some, List, [], ◌∷◌, is_empty, if◌then◌else◌,
  ◌==◌, ◌!=◌, ◌&&◌, ◌||◌, not, ◌<>◌, starts_with,
}
use goidc.Authorize.Checks.{
  invalid_request, checked, allowed_by_profile, open_id_error, validate_in_with_out_params,
  validate_request_with_par, validate_request_with_jar, validate_pushed_request,
  validate_pushed_request_with_jar,
}
use goidc.Authorize.Jar.{jar_from_request_object}
use goidc.Authorize.Request.{
  AuthorizationRequest, PushedAuthorizationRequest, Scoped, on_state, allow, new_authn_session,
  callback_id_length, request_uri_length,
}
use goidc.Authorize.Validation.{validate_params, validate_params_authorize}
use goidc.Model.Client.{Client}
use goidc.Model.Const.ClientAuthn
use goidc.Model.Const.Profile
use goidc.Model.Params.{AuthorizationParameters, merge}
use goidc.Model.Session.{AuthnSession, update_params, set_claim_id_token, authn_session_is_expired}
use goidc.Model.Value.{Claims, Value}
use goidc.Oidc.Config.{AuthnPolicy}
use goidc.Oidc.Context.{
  Context, State, Run, authn_session_by_request_uri, authn_session_written, delete_authn_session,
}
use goidc.Oidc.Effect.{
  Error, Outcome, ok, err, panic, crash, base_error, redirection_error, pure, raise, fault, gets,
  check, modify, ◌>>=◌, ◌>>◌,
}
use goidc.Oidc.ErrorCode
use goidc.Storage.{Fetched, found, failed}
use goidc.StrUtil.{contains_open_id}
use goidc.Token.Make.{new_uuid, random_text}

module _ (ctx : Context) where
  open ctx use {library, now, request}

  unfoldable pub should_init_authn_session_with_par : AuthorizationParameters → Bool
  should_init_authn_session_with_par params =
      ctx.par_is_required || (ctx.par_is_enabled && not (is_empty params.request_uri))

  unfoldable pub should_init_authn_session_with_jar : AuthorizationParameters → Client → Bool
  should_init_authn_session_with_jar params c =
      ctx.jar_is_required
      || (ctx.jar_is_enabled && not (is_empty params.request_object))
      || not (is_empty c.jar_signature_algorithm)

  -- An error of the validation deletes the session; the error of the deletion comes first.
  abbrev refused_by :
      Error → Client → Option String × State ctx → Outcome (Unit {0}) × (Client × State ctx)
  refused_by e c (none, s) = (err e, (c, s))
  refused_by e c (some message, s) = (err (base_error ErrorCode.internal_error message), (c, s))

  abbrev delete_if_refused :
      AuthnSession
      → Outcome (Unit {0}) × (Client × State ctx)
      → Outcome (Unit {0}) × (Client × State ctx)
  delete_if_refused session (ok u, cs) = (ok u, cs)
  delete_if_refused session (err e, cs) =
      refused_by e cs.0 (delete_authn_session ctx session.id cs.1)
  delete_if_refused session (panic, cs) = (panic, cs)
  delete_if_refused session (crash, cs) = (crash, cs)

  abbrev deleting : AuthnSession → Scoped ctx (Unit {0}) → Scoped ctx (Unit {0})
  deleting session m cs = delete_if_refused session (m cs)

  -- A session whose fields were assigned through its pointer.
  abbrev pub written : AuthnSession → Scoped ctx (Unit {0})
  written session cs = (ok tt, (cs.0, authn_session_written ctx session cs.1))

  abbrev par_session : String → Scoped ctx AuthnSession
  par_session request_uri cs =
      if is_empty request_uri
      then (err (invalid_request "invalid request_uri"), cs)
      else elim (authn_session_by_request_uri ctx request_uri cs.1) [
        | failed message ↦ (err (invalid_request "invalid request_uri"), cs)
        | found session ↦ (ok session, cs)
      ]

  -- authnSessionWithPAR, with getSessionCreatedWithPAR
  unfoldable pub authn_session_with_par : AuthorizationRequest → Scoped ctx AuthnSession
  unfolding authn_session_by_request_uri validate_request_with_par delete_authn_session
      update_params authn_session_written
  authn_session_with_par req = do
    session ← par_session req.request_uri
    deleting session (validate_request_with_par ctx req session)
    written (update_params req.params session)
    pure (update_params req.params session)

  abbrev new_session : AuthorizationParameters → Scoped ctx AuthnSession
  new_session params = do
    uuid ← on_state ctx (new_uuid ctx)
    c ← gets (λ cs. cs.0)
    pure (new_authn_session uuid now params c)

  -- getJAR and extractJARFromRequest
  unfoldable pub get_jar : AuthorizationParameters → Scoped ctx AuthorizationRequest
  unfolding jar_from_request_object
  get_jar params =
      check (
        if is_empty params.request_object
        then some (invalid_request "request object is required")
        else none)
      >> jar_from_request_object ctx params.request_object

  -- authnSessionWithJAR
  unfoldable pub authn_session_with_jar : AuthorizationRequest → Scoped ctx AuthnSession
  unfolding get_jar validate_request_with_jar new_authn_session update_params on_state new_uuid
  authn_session_with_jar req = do
    jar ← get_jar req.params
    validate_request_with_jar ctx req jar
    session ← new_session jar.params
    pure (update_params req.params session)

  -- initValidSimpleAuthnSession
  unfoldable pub init_valid_simple_authn_session : AuthorizationRequest → Scoped ctx AuthnSession
  unfolding validate_params_authorize new_authn_session on_state new_uuid
  init_valid_simple_authn_session req = do
    checked ctx (λ c. validate_params_authorize ctx req.params c)
    new_session req.params

  -- authnSession
  unfoldable pub authn_session : AuthorizationRequest → Scoped ctx AuthnSession
  unfolding authn_session_with_par authn_session_with_jar init_valid_simple_authn_session
      should_init_authn_session_with_par should_init_authn_session_with_jar
  authn_session req = do
    c ← gets (λ cs. cs.0)
    if should_init_authn_session_with_par req.params
        then authn_session_with_par req
        else if should_init_authn_session_with_jar req.params c
        then authn_session_with_jar req
        else init_valid_simple_authn_session req

  -- Context.FindAvailablePolicy, with what the policies that were asked did to the session.
  unfoldable pub find_available_policy :
      Client → AuthnSession → List AuthnPolicy → Option AuthnPolicy × AuthnSession
  find_available_policy c session [] = (none, session)
  find_available_policy c session (policy ∷ policies) =
      let (available, session') = policy.set_up request c session in
      let rest = find_available_policy c session' policies in
      if available then (some policy, session') else rest

  abbrev with_nonce : AuthnSession → AuthnSession
  with_nonce session =
      if is_empty session.nonce
      then session
      else set_claim_id_token "nonce" (Value.text session.nonce) session

  abbrev drawn_or_redirect : AuthorizationParameters → Fetched String → Outcome String
  drawn_or_redirect params (failed message) =
      err (redirection_error ErrorCode.internal_error message params)
  drawn_or_redirect params (found text) = ok text

  abbrev start : Option AuthnPolicy → AuthnSession → Scoped ctx AuthnSession
  start none session =
      raise (redirection_error ErrorCode.invalid_request "no policy available" session.params)
  start (some policy) session = do
    let chosen = record (with_nonce session) { policy_id = policy.id }
    written chosen
    drawn ← on_state ctx (random_text ctx callback_id_length)
    id ← fault (drawn_or_redirect chosen.params drawn)
    let started = record chosen {
      callback_id = id;
      params = record chosen.params { request_uri = "" };
      expires_at_timestamp = now + ctx.authentication_session_timeout_secs;
    }
    written started
    pure started

  -- initAuthnSessionWithPolicy
  unfoldable pub init_authn_session_with_policy : AuthnSession → Scoped ctx AuthnSession
  unfolding find_available_policy set_claim_id_token authn_session_written on_state random_text
  init_authn_session_with_policy session = do
    c ← gets (λ cs. cs.0)
    let asked = find_available_policy c session ctx.policies
    written asked.1
    start asked.0 asked.1

  unfoldable pub init_authn_session : AuthorizationRequest → Scoped ctx AuthnSession
  unfolding authn_session init_authn_session_with_policy
  init_authn_session req = authn_session req >>= init_authn_session_with_policy

  -- protectedParams
  unfoldable pub protected_params : List (String × String) → Claims
  protected_params [] = []
  protected_params (field ∷ fields) =
      let rest = protected_params fields in
      if starts_with field.0 "p_" then (field.0, Value.text field.1) ∷ rest else rest

  -- pushedSimpleAuthnSession
  unfoldable pub pushed_simple_authn_session : PushedAuthorizationRequest → Scoped ctx AuthnSession
  unfolding validate_pushed_request new_authn_session protected_params on_state new_uuid
  pushed_simple_authn_session req = do
    validate_pushed_request ctx req.params
    session ← new_session req.params
    pure (record session { protected_parameters = protected_params request.form })

  -- pushedAuthnSessionWithJAR
  unfoldable pub pushed_authn_session_with_jar :
      PushedAuthorizationRequest → Scoped ctx AuthnSession
  unfolding get_jar validate_pushed_request_with_jar new_authn_session on_state new_uuid
  pushed_authn_session_with_jar req = do
    jar ← get_jar req.params
    validate_pushed_request_with_jar ctx req jar
    new_session jar.params

  abbrev drawn_or_error : Fetched String → Outcome String
  drawn_or_error (failed message) = err (base_error ErrorCode.internal_error message)
  drawn_or_error (found text) = ok text

  -- pushedAuthnSession
  unfoldable pub pushed_authn_session : PushedAuthorizationRequest → Scoped ctx AuthnSession
  unfolding pushed_simple_authn_session pushed_authn_session_with_jar
      should_init_authn_session_with_jar on_state random_text
  pushed_authn_session req = do
    c ← gets (λ cs. cs.0)
    session ←
        (if should_init_authn_session_with_jar req.params c
          then pushed_authn_session_with_jar req
          else pushed_simple_authn_session req)
    drawn ← on_state ctx (random_text ctx request_uri_length)
    id ← fault (drawn_or_error drawn)
    pure (record session {
      params = record session.params { request_uri = "urn:ietf:params:oauth:request_uri:" <> id };
      expires_at_timestamp = now + ctx.par_lifetime_secs;
    })
