-- ===== src/Authorize/Checks.antt =====
-- The validations of internal/authorize/validation.go that may change the client.
use goidc.Base.{String, Option, none, some, is_empty, if◌then◌else◌, ◌==◌, ◌!=◌, ◌&&◌, not}
use goidc.Authorize.Request.{AuthorizationRequest, PushedAuthorizationRequest, Scoped, allow}
use goidc.Authorize.Validation.{validate_params, validate_params_authorize}
use goidc.Model.Client.{Client}
use goidc.Model.Const.ClientAuthn
use goidc.Model.Const.Profile
use goidc.Model.Params.{AuthorizationParameters, merge}
use goidc.Model.Session.{AuthnSession, authn_session_is_expired}
use goidc.Oidc.Context.{Context}
use goidc.Oidc.Effect.{Error, base_error, redirection_error, pure, gets, check, ◌>>=◌, ◌>>◌}
use goidc.Oidc.ErrorCode
use goidc.StrUtil.{contains_open_id}

abbrev pub invalid_request : String → Error
invalid_request message = base_error ErrorCode.invalid_request message

module _ (ctx : Context) where
  open ctx use {library, now, request}

  -- A validation of parameters for the client that the handler holds.
  abbrev pub checked : (Client → Option Error) → Scoped ctx (Unit {0})
  checked validate = gets (λ cs. cs.0) >>= λ c. check (validate c)

  abbrev pub allowed_by_profile : String → Scoped ctx (Unit {0})
  allowed_by_profile redirect_uri =
      if (ctx.profile == Profile.fapi2) && not (is_empty redirect_uri)
      then allow ctx redirect_uri
      else pure tt

  -- The rules of OpenID for parameters that are given in two places.
  abbrev pub open_id_error : AuthorizationParameters → AuthorizationParameters → Option Error
  open_id_error inside outside =
      if not ((ctx.profile == Profile.open_id) && contains_open_id (merge inside outside).scopes)
      then none
      else if is_empty outside.response_type
      then some (
          redirection_error ErrorCode.invalid_request "invalid response_type"
            (merge inside outside))
      else if not (is_empty inside.response_type) && (inside.response_type != outside.response_type)
      then some (
          redirection_error ErrorCode.invalid_request "invalid response_type"
            (merge inside outside))
      else if not (contains_open_id outside.scopes)
      then some (
          redirection_error ErrorCode.invalid_scope "scope openid is required"
            (merge inside outside))
      else none

  unfoldable pub validate_in_with_out_params :
      AuthorizationParameters → AuthorizationParameters → Scoped ctx (Unit {0})
  unfolding allow merge validate_params_authorize contains_open_id
  validate_in_with_out_params inside outside = do
    allowed_by_profile inside.redirect_uri
    checked (λ c. validate_params_authorize ctx (merge inside outside) c)
    check (open_id_error inside outside)

  -- validateRequestWithPAR
  unfoldable pub validate_request_with_par :
      AuthorizationRequest → AuthnSession → Scoped ctx (Unit {0})
  unfolding validate_in_with_out_params
  validate_request_with_par req session = do
    check (
        if session.client_id != req.client_id
        then some (base_error ErrorCode.access_denied "invalid client")
        else none)
    validate_in_with_out_params session.params req.params
    check (
        if authn_session_is_expired now session
        then some (
            redirection_error ErrorCode.invalid_request "the request_uri is expired"
              (merge session.params req.params))
        else none)

  -- validateRequestWithJAR
  unfoldable pub validate_request_with_jar :
      AuthorizationRequest → AuthorizationRequest → Scoped ctx (Unit {0})
  unfolding validate_in_with_out_params
  validate_request_with_jar req jar = do
    checked
        (λ c. if jar.client_id != c.id then some (invalid_request "invalid client_id") else none)
    validate_in_with_out_params jar.params req.params
    check (
        if not (is_empty jar.request_uri)
        then some (
            redirection_error ErrorCode.invalid_request
              "request_uri is not allowed inside the request object" (merge jar.params req.params))
        else none)
    check (
        if not (is_empty jar.request_object)
        then some (
            redirection_error ErrorCode.invalid_request
              "request is not allowed inside the request object" (merge jar.params req.params))
        else none)

  -- validatePushedRequest
  unfoldable pub validate_pushed_request : AuthorizationParameters → Scoped ctx (Unit {0})
  unfolding allow validate_params
  validate_pushed_request params = do
    checked (λ c.
        if c.authn_method == ClientAuthn.none_authn
        then some (invalid_request "invalid client authentication method")
        else none)
    check (
        if not (is_empty params.request_uri)
        then some (invalid_request "request_uri is not allowed during PAR")
        else none)
    allowed_by_profile params.redirect_uri
    checked (λ c. validate_params ctx params c)

  -- validatePushedRequestWithJAR
  unfoldable pub validate_pushed_request_with_jar :
      PushedAuthorizationRequest → AuthorizationRequest → Scoped ctx (Unit {0})
  unfolding validate_pushed_request
  validate_pushed_request_with_jar req jar = do
    check (
        if not (is_empty req.request_uri)
        then some (invalid_request "request_uri is not allowed during PAR")
        else none)
    checked (λ c.
        if jar.client_id != c.id
        then some (base_error ErrorCode.invalid_request_object "invalid client_id")
        else none)
    check (
        if not (is_empty jar.request_object)
        then some
            (base_error ErrorCode.invalid_request_object "request object is not allowed inside JAR")
        else none)
    validate_pushed_request jar.params
