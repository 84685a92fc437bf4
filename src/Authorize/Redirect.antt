-- ===== src/Authorize/Redirect.antt =====
-- Responses by way of the user agent (internal/authorize/redirect.go).
pub mod Sent
use goidc.Base.{
  ◌+◌, String, Option, none, some, List, [], ◌∷◌, ◌++◌, is_empty, if◌then◌else◌, ◌==◌, ◌||◌, not,
  ◌<>◌, map,
}
use goidc.Authorize.Request.{AuthorizationResponse, empty_response, parameters}
use goidc.Base.Dict.{copy}
use goidc.Model.Client.{Client}
use goidc.Model.Const.ResponseMode
use goidc.Model.Const.ResponseType
use goidc.Model.Params.{AuthorizationParameters}
use goidc.Model.Value.{Value}
use goidc.Oidc.Context.{Context, Run, Response, redirect, form_post}
use goidc.Oidc.Effect.{Error, ok, err, base_error, redirection_error, pure, fault, ◌>>=◌}
use goidc.Oidc.ErrorCode
use goidc.Oidc.Keys.{jarm_signature_key}
use goidc.Token.IdToken.{encrypt_for_client}
use goidc.Token.Make.{or_panic, value_or_internal_error}

unfoldable pub response_mode : AuthorizationParameters → String
unfolding ResponseType.is_implicit
response_mode params =
    if is_empty params.response_mode
    then (if ResponseType.is_implicit params.response_type
        then ResponseMode.fragment
        else ResponseMode.query)
    else if params.response_mode == ResponseMode.jwt
    then (if ResponseType.is_implicit params.response_type
        then ResponseMode.fragment_jwt
        else ResponseMode.query_jwt)
    else params.response_mode

module _ (ctx : Context) where
  open ctx use {library, now}

  -- The end of RenderHTML: what was written before an error of the template is not recorded.
  abbrev pub rendered : Response → Option String → Run ctx (Unit {0})
  rendered response none s = (ok tt, record s { responses = s.responses ++ response ∷ [] })
  rendered response (some message) s = (err (base_error ErrorCode.internal_error message), s)

  -- Context.Redirect and Context.RenderHTML: a form is not sent if the context of the request is done.
  unfoldable pub respond : Response → Run ctx (Unit {0})
  respond (redirect url) s = (ok tt, record s { responses = s.responses ++ redirect url ∷ [] })
  respond (form_post uri params) s =
      if ctx.request.is_done
      then (ok tt, s)
      else rendered (form_post uri params) (library.execute_template uri params) s

  -- signJARMResponse
  unfoldable pub sign_jarm_response : Client → AuthorizationResponse → Run ctx String
  unfolding jarm_signature_key parameters copy
  sign_jarm_response c response = do
    key ← fault (or_panic (jarm_signature_key ctx c))
    fault (
        value_or_internal_error (
          library.sign_claims key "jwt" (
            copy (map (λ p. (p.0, Value.text p.1)) (parameters response)) (
              ("iss", Value.text ctx.host)
              ∷ ("aud", Value.text c.id)
              ∷ ("iat", Value.number now)
              ∷ ("exp", Value.number (now + ctx.jarm_lifetime_secs))
              ∷ []))))

  -- createJARMResponse
  unfoldable pub create_jarm_response : Client → AuthorizationResponse → Run ctx String
  unfolding sign_jarm_response encrypt_for_client
  create_jarm_response c response = do
    jwt ← sign_jarm_response c response
    if is_empty c.jarm_key_encryption_algorithm
        then pure jwt
        else (encrypt_for_client ctx c.jarm_key_encryption_algorithm
              c.jarm_content_encryption_algorithm c jwt
            >>= λ made. pure made.0)

  -- The response of a mode; `none` is a panic by a URL that does not parse.
  abbrev url_response : Option String → Option Response
  url_response none = none
  url_response (some url) = some (redirect url)

  unfoldable pub response_of : String → String → List (String × String) → Option Response
  response_of mode redirect_uri [] =
      if (mode == ResponseMode.form_post) || (mode == ResponseMode.form_post_jwt)
      then some (form_post redirect_uri [])
      else some (redirect redirect_uri)
  response_of mode redirect_uri (p ∷ ps) =
      if (mode == ResponseMode.fragment) || (mode == ResponseMode.fragment_jwt)
      then some (redirect (redirect_uri <> "#" <> library.encode_values (p ∷ ps)))
      else if (mode == ResponseMode.form_post) || (mode == ResponseMode.form_post_jwt)
      then some (form_post redirect_uri (p ∷ ps))
      else url_response (library.url_with_query redirect_uri (p ∷ ps))

  abbrev with_jarm :
      Client → AuthorizationParameters → AuthorizationResponse → Run ctx AuthorizationResponse
  with_jarm c params response =
      if ResponseMode.is_jarm (response_mode params) || not (is_empty c.jarm_signature_algorithm)
      then (create_jarm_response c response >>= λ jwt. pure (record response { response = jwt }))
      else pure response

  -- redirectResponse
  unfoldable pub redirect_response :
      Client → AuthorizationParameters → AuthorizationResponse → Run ctx (Unit {0})
  unfolding create_jarm_response response_mode response_of respond parameters ResponseMode.is_jarm
  redirect_response c params response = do
    signed ← with_jarm c params (
        if ctx.issuer_response_parameter_is_enabled
        then record response { issuer = ctx.host }
        else response)
    sent ←
        fault
          (or_panic (response_of (response_mode params) params.redirect_uri (parameters signed)))
    respond sent

  -- redirectError: an error of the other kind is left to the caller.
  unfoldable pub redirect_error : Client → Error → Run ctx (Unit {0})
  unfolding redirect_response
  redirect_error c (base_error code description) = fault (err (base_error code description))
  redirect_error c (redirection_error code description params) =
      redirect_response c params (record empty_response {
        error = code;
        error_description = description;
        state = params.state;
      })
