-- ===== src/Dcr/Validation.antt =====
-- The validations of a registration (internal/dcr/validation.go). Those of algorithms are in
-- Dcr/Validation/Algorithms.
pub mod Algorithms
pub mod Known
pub mod Registrable
use goidc.Base.{
  ℕ, zero, suc, ◌+◌, String, Bool, Option, none, some, List, [], ◌∷◌, ◌<>◌, ◌==◌, ◌!=◌, ◌&&◌, ◌||◌,
  not, all, any, contains, is_empty, nat_eq, if◌then◌else◌,
}
use goidc.Dcr.Request.{DynamicClientRequest}
use goidc.Model.Client.{Scope, elements}
use goidc.Model.Const.ClientAuthn
use goidc.Model.Const.GrantType
use goidc.Model.Const.ResponseType
use goidc.Oidc.Context.{Context}
use goidc.Oidc.Effect.{Verdict, ok}
use goidc.Oidc.Library.{Jwk}
use goidc.Storage.{Fetched, found, failed}
use goidc.StrUtil.{contains_open_id, contains_offline_access, split_with_spaces}
use Algorithms.{
  invalid_request, refuse_if, ◌else_refuse◌, run_validations,
  validate_client_signature_algorithm_for_private_key_jwt,
  validate_client_signature_algorithm_for_client_secret_jwt, validate_id_token_signature_algorithm,
  validate_id_token_encryption_algorithms, validate_user_info_signature_algorithm,
  validate_user_info_encryption_algorithms, validate_jar_signature_algorithm,
  validate_jar_encryption_algorithms, validate_jarm_signature_algorithm,
  validate_jarm_encryption_algorithms,
}

abbrev pub is_nil {ℓ} : {A : Type ℓ} → Option A → Bool
is_nil none = goidc.Base.true
is_nil (some a) = goidc.Base.false

-- len(xs) == 0
abbrev pub is_empty_list {ℓ} : {A : Type ℓ} → List A → Bool
is_empty_list [] = goidc.Base.true
is_empty_list (x ∷ xs) = goidc.Base.false

module _ (ctx : Context) (req : DynamicClientRequest) where
  open ctx use {library}

  unfoldable pub validate_grant_types : Verdict
  validate_grant_types =
      refuse_if (not (all (λ gt. contains ctx.grant_types gt) req.grant_types))
        "grant type not allowed"
      else_refuse refuse_if
          (req.authn_method == ClientAuthn.none_authn
            && contains req.grant_types GrantType.client_credentials)
          "client_credentials grant type not allowed"
      else_refuse refuse_if
          (contains req.grant_types GrantType.introspection
            && not (contains ctx.introspection_client_authn_methods req.authn_method))
          "client_credentials grant type not allowed"

  -- validateRedirectURIS
  unfoldable pub validate_redirect_uris : Verdict
  validate_redirect_uris =
      refuse_if (is_empty_list req.redirect_uris) "at least one redirect uri must be informed"

  -- Without the implicit grant, the loop over the response types is followed by the same error.
  unfoldable pub validate_response_types : Verdict
  unfolding ResponseType.is_implicit
  validate_response_types =
      refuse_if (not (all (λ rt. contains ctx.response_types rt) (elements req.response_types)))
        "response type not allowed"
      else_refuse (if not (contains ctx.grant_types GrantType.implicit)
          then refuse_if (any (λ rt. ResponseType.is_implicit rt) (elements req.response_types))
              "implicit grant type is required for implicit response types"
            else_refuse invalid_request
                "implicit grant type is required for implicit response types"
          else ok tt)

  unfoldable pub validate_authn_method : Verdict
  validate_authn_method =
      refuse_if (not (contains ctx.client_authn_methods req.authn_method))
        "authn method not allowed"

  -- validateOpenIDScopeIfRequired
  unfoldable pub validate_open_id_scope_if_required : Verdict
  unfolding contains_open_id
  validate_open_id_scope_if_required =
      if not ctx.open_id_scope_is_required
      then ok tt
      else refuse_if (not (is_empty req.scopes) || not (contains_open_id req.scopes))
          "scope openid is required"

  unfoldable pub validate_subject_identifier_type : Verdict
  validate_subject_identifier_type =
      if is_empty req.subject_identifier_type
      then ok tt
      else refuse_if (not (contains ctx.subject_identifier_types req.subject_identifier_type))
          "subject_type not supported"

  -- PublicJWKS is nil, and there is no address of one.
  abbrev pub has_no_jwks : Bool
  has_no_jwks = is_nil req.public_jwks && is_empty req.public_jwks_uri

  -- validateJWKSAreRequiredForPrivateKeyJWTAuthn
  unfoldable pub validate_jwks_are_required_for_private_key_jwt_authn : Verdict
  validate_jwks_are_required_for_private_key_jwt_authn =
      if req.authn_method != ClientAuthn.private_key_jwt
      then ok tt
      else refuse_if has_no_jwks "the jwks is required for private_key_jwt"

  -- validateJWKSIsRequiredWhenSelfSignedTLSAuthn
  unfoldable pub validate_jwks_is_required_when_self_signed_tls_authn : Verdict
  validate_jwks_is_required_when_self_signed_tls_authn =
      if req.authn_method != ClientAuthn.self_signed_tls
      then ok tt
      else refuse_if has_no_jwks
          "jwks is required when authenticating with self signed certificates"

  abbrev one_if : Bool → ℕ
  one_if b = if b then 1 else 0

  abbrev pub number_of_identifiers : ℕ
  number_of_identifiers =
      one_if (not (is_empty req.tls_subject_distinguished_name))
      + (one_if (not (is_empty req.tls_subject_alternative_name))
          + one_if (not (is_empty req.tls_subject_alternative_name_ip)))

  -- validateTLSSubjectInfoWhenTLSAuthn
  unfoldable pub validate_tls_subject_info_when_tls_authn : Verdict
  validate_tls_subject_info_when_tls_authn =
      if req.authn_method != ClientAuthn.tls
      then ok tt
      else refuse_if (not (nat_eq number_of_identifiers 1))
          "only one of: tls_client_auth_subject_dn, tls_client_auth_san_dns, tls_client_auth_san_ip must be informed"

  abbrev pub validate_keys : List Jwk → Verdict
  validate_keys [] = ok tt
  validate_keys (key ∷ keys) =
      refuse_if (not (library.jwk_is_public key) || not (library.jwk_valid key))
        ("the key with ID: " <> (key.key_id <> " jwks is invalid"))
      else_refuse validate_keys keys

  abbrev pub validate_jwks : Fetched (List Jwk) → Verdict
  validate_jwks (failed message) = invalid_request "invalid jwks"
  validate_jwks (found keys) = validate_keys keys

  abbrev pub validate_raw_jwks : Option String → Verdict
  validate_raw_jwks none = ok tt
  validate_raw_jwks (some raw) = validate_jwks (library.unmarshal_jwks raw)

  -- validatePublicJWKS
  unfoldable pub validate_public_jwks : Verdict
  validate_public_jwks = validate_raw_jwks req.public_jwks

  -- validatePublicJWKSURI
  unfoldable pub validate_public_jwks_uri : Verdict
  validate_public_jwks_uri = ok tt

  unfoldable pub validate_authorization_detail_types : Verdict
  validate_authorization_detail_types =
      if not ctx.authorization_details_parameter_is_enabled || is_nil req.authorization_detail_types
      then ok tt
      else refuse_if
          (not (
            all (λ dt. contains ctx.authorization_detail_types dt)
              (elements req.authorization_detail_types)))
          "authorization detail type not supported"

  unfoldable pub validate_refresh_token_grant : Verdict
  unfolding contains_offline_access
  validate_refresh_token_grant =
      refuse_if
        (contains_offline_access req.scopes
          && not (contains req.grant_types GrantType.refresh_token))
        "refresh_token grant is required for using the scope offline_access"

  -- The loop over the scopes that are requested.
  abbrev pub validate_requested_scopes : List String → Verdict
  validate_requested_scopes [] = ok tt
  validate_requested_scopes (requested ∷ scopes) =
      refuse_if (not (any (λ scope. requested == scope.id) ctx.scopes))
        ("scope " <> (requested <> " is not valid"))
      else_refuse validate_requested_scopes scopes

  unfoldable pub validate_scopes : Verdict
  unfolding split_with_spaces
  validate_scopes = validate_requested_scopes (split_with_spaces req.scopes)

  -- The validations that `validateDynamicClientRequest` runs, in their order.
  abbrev pub validations : List Verdict
  validations =
      validate_authn_method
      ∷ validate_scopes
      ∷ validate_client_signature_algorithm_for_private_key_jwt ctx req
      ∷ validate_client_signature_algorithm_for_client_secret_jwt ctx req
      ∷ validate_jwks_are_required_for_private_key_jwt_authn
      ∷ validate_jwks_is_required_when_self_signed_tls_authn
      ∷ validate_tls_subject_info_when_tls_authn
      ∷ validate_grant_types
      ∷ validate_refresh_token_grant
      ∷ validate_redirect_uris
      ∷ validate_response_types
      ∷ validate_open_id_scope_if_required
      ∷ validate_subject_identifier_type
      ∷ validate_id_token_signature_algorithm ctx req
      ∷ validate_id_token_encryption_algorithms ctx req
      ∷ validate_user_info_signature_algorithm ctx req
      ∷ validate_user_info_encryption_algorithms ctx req
      ∷ validate_jar_signature_algorithm ctx req
      ∷ validate_jar_encryption_algorithms ctx req
      ∷ validate_jarm_signature_algorithm ctx req
      ∷ validate_jarm_encryption_algorithms ctx req
      ∷ validate_public_jwks
      ∷ validate_public_jwks_uri
      ∷ validate_authorization_detail_types
      ∷ []

  unfoldable pub validate_dynamic_client_request : Verdict
  unfolding run_validations validate_authn_method validate_scopes
      validate_client_signature_algorithm_for_private_key_jwt
      validate_client_signature_algorithm_for_client_secret_jwt
      validate_jwks_are_required_for_private_key_jwt_authn
      validate_jwks_is_required_when_self_signed_tls_authn validate_tls_subject_info_when_tls_authn
      validate_grant_types validate_refresh_token_grant validate_redirect_uris
      validate_response_types validate_open_id_scope_if_required validate_subject_identifier_type
      validate_id_token_signature_algorithm validate_id_token_encryption_algorithms
      validate_user_info_signature_algorithm validate_user_info_encryption_algorithms
      validate_jar_signature_algorithm validate_jar_encryption_algorithms
      validate_jarm_signature_algorithm validate_jarm_encryption_algorithms validate_public_jwks
      validate_public_jwks_uri validate_authorization_detail_types
  validate_dynamic_client_request = run_validations validations
