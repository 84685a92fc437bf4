-- ===== src/Authorize/Validation.antt =====
-- The validation of authorization parameters (internal/authorize/validation.go).
pub mod Accepted
use goidc.Base.{
  String, Bool, Option, none, some, List, [], ◌∷◌, is_empty, if◌then◌else◌, ◌!=◌, not, ◌&&◌, ◌||◌,
  all, any, contains,
}
use goidc.Model.Client.{
  Client, are_scopes_allowed, is_response_type_allowed, is_grant_type_allowed,
  is_redirect_uri_allowed, is_authorization_detail_type_allowed,
}
use goidc.Model.Const.ClientAuthn
use goidc.Model.Const.GrantType
use goidc.Model.Const.ResponseMode
use goidc.Model.Const.ResponseType
use goidc.Model.Params.{AuthorizationParameters}
use goidc.Model.Value.{AuthorizationDetail, detail_type}
use goidc.Oidc.Context.{Context}
use goidc.Oidc.Effect.{Error, base_error, redirection_error}
use goidc.Oidc.ErrorCode
use goidc.StrUtil.{contains_open_id, split_with_spaces}

-- The first error of two validations, `if err := ...; err != nil { return err }`.
infixr 4 ◌else_check◌
abbrev pub ◌else_check◌ : Option Error → Option Error → Option Error
(some e) else_check v = some e
none else_check v = v

abbrev pub refuse_if : Bool → Error → Option Error
refuse_if b e = if b then some e else none

module _ (ctx : Context) (params : AuthorizationParameters) (c : Client) where
  abbrev redirected : String → String → Error
  redirected code description = redirection_error code description params

  unfoldable pub validate_scopes : Option Error
  unfolding are_scopes_allowed contains_open_id
  validate_scopes =
      refuse_if (not (are_scopes_allowed c ctx.scopes params.scopes))
        (redirected ErrorCode.invalid_scope "invalid scope")
      else_check refuse_if
          (not (is_empty params.scopes)
            && (ctx.open_id_scope_is_required && not (contains_open_id params.scopes)))
          (redirected ErrorCode.invalid_scope "scope openid is required")

  -- validatePKCE
  unfoldable pub validate_pkce : Option Error
  validate_pkce =
      refuse_if
        (ctx.pkce_is_enabled
          && (not (c.authn_method != ClientAuthn.none_authn) && is_empty params.code_challenge))
        (redirected ErrorCode.invalid_request "pkce is required for public clients")
      else_check refuse_if (ctx.pkce_is_required && is_empty params.code_challenge)
          (redirected ErrorCode.invalid_request "code_challenge is required")

  unfoldable pub validate_response_type : Option Error
  unfolding is_response_type_allowed is_grant_type_allowed ResponseType.has ResponseType.is_implicit
  validate_response_type =
      refuse_if
        (not (is_empty params.response_type)
          && not (is_response_type_allowed c params.response_type))
        (redirected ErrorCode.invalid_request "invalid response_type")
      else_check refuse_if
          (ResponseType.has params.response_type ResponseType.code
            && not (is_grant_type_allowed c GrantType.authorization_code))
          (redirected ErrorCode.invalid_grant "response type code is not allowed")
      else_check refuse_if
          (ResponseType.is_implicit params.response_type
            && not (is_grant_type_allowed c GrantType.implicit))
          (redirected ErrorCode.invalid_request "implicit response type is not allowed")

  unfoldable pub validate_response_mode : Option Error
  unfolding ResponseType.is_implicit ResponseMode.is_jarm ResponseMode.is_query
      ResponseMode.is_plain
  validate_response_mode =
      refuse_if (not ctx.jarm_is_enabled && ResponseMode.is_jarm params.response_mode)
        (redirected ErrorCode.invalid_request "invalid response_mode")
      else_check refuse_if
          (ResponseType.is_implicit params.response_type
            && ResponseMode.is_query params.response_mode)
          (redirected ErrorCode.invalid_request
            "invalid response_mode for the chosen response_type")
      else_check refuse_if
          (not (is_empty c.jarm_signature_algorithm) && ResponseMode.is_plain params.response_mode)
          (redirected ErrorCode.invalid_request "invalid response_mode")

  -- One round of the loop over the authorization details.
  abbrev pub detail_is_allowed : AuthorizationDetail → Bool
  detail_is_allowed detail =
      contains ctx.authorization_detail_types (detail_type detail)
      && is_authorization_detail_type_allowed c (detail_type detail)

  abbrev details_error : Option (List AuthorizationDetail) → Option Error
  details_error none = none
  details_error (some details) =
      refuse_if (not (all detail_is_allowed details))
        (redirected ErrorCode.invalid_request "invalid authorization detail type")

  unfoldable pub validate_authorization_details : Option Error
  unfolding detail_type is_authorization_detail_type_allowed
  validate_authorization_details =
      if not ctx.authorization_details_parameter_is_enabled
      then none
      else details_error params.authorization_details

  -- validateACRValues
  unfoldable pub validate_acr_values : Option Error
  unfolding split_with_spaces
  validate_acr_values =
      refuse_if
        (not (
          all (λ acr. contains ctx.authentication_context_references acr)
            (split_with_spaces params.acr_values)))
        (redirected ErrorCode.invalid_request "invalid acr value")

  unfoldable pub validate_params : Option Error
  unfolding is_redirect_uri_allowed validate_scopes validate_response_type validate_response_mode
      validate_authorization_details validate_acr_values
  validate_params =
      refuse_if (not (is_redirect_uri_allowed c params.redirect_uri))
        (base_error ErrorCode.invalid_request "invalid redirect_uri")
      else_check validate_scopes
      else_check validate_response_type
      else_check validate_response_mode
      else_check refuse_if
          (not (is_empty params.code_challenge_method)
            && not (contains ctx.code_challenge_methods params.code_challenge_method))
          (redirected ErrorCode.invalid_request "invalid code_challenge_method")
      else_check validate_authorization_details
      else_check validate_acr_values
      else_check refuse_if
          (not (is_empty params.display) && not (contains ctx.display_values params.display))
          (redirected ErrorCode.invalid_request "invalid display value")
      else_check refuse_if
          (not (is_empty params.request_uri) && not (is_empty params.request_object))
          (redirected ErrorCode.invalid_request
            "cannot inform a request object and request_uri at the same time")

  unfoldable pub validate_params_authorize : Option Error
  unfolding validate_params validate_pkce ResponseType.has contains_open_id
  validate_params_authorize =
      refuse_if (is_empty params.redirect_uri)
        (base_error ErrorCode.invalid_request "redirect_uri is required")
      else_check validate_params
      else_check refuse_if (is_empty params.response_type)
          (redirected ErrorCode.invalid_request "response_type is required")
      else_check refuse_if (ctx.open_id_scope_is_required && not (contains_open_id params.scopes))
          (redirected ErrorCode.invalid_scope "scope openid is required")
      else_check refuse_if
          (ResponseType.has params.response_type ResponseType.id_token
            && not (contains_open_id params.scopes))
          (redirected ErrorCode.invalid_request "cannot request id_token without the scope openid")
      else_check refuse_if
          (ResponseType.has params.response_type ResponseType.id_token && is_empty params.nonce)
          (redirected ErrorCode.invalid_request
            "nonce is required when response type id_token is requested")
      else_check validate_pkce
