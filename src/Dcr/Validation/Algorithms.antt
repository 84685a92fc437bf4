-- ===== src/Dcr/Validation/Algorithms.antt =====
-- The validations of the algorithms of a registration, and how validations are put together
-- (internal/dcr/validation.go).
use goidc.Base.{
  String, Bool, List, [], ◌∷◌, ◌!=◌, ◌&&◌, ◌||◌, not, contains, is_empty, if◌then◌else◌,
}
use goidc.Dcr.Request.{DynamicClientRequest}
use goidc.Model.Const.ClientAuthn
use goidc.Oidc.Algorithms.{
  user_info_signature_algorithms, jarm_signature_algorithms, jar_key_encryption_algorithms,
}
use goidc.Oidc.Context.{Context}
use goidc.Oidc.Effect.{Outcome, Verdict, ok, err, panic, crash, base_error}
use goidc.Oidc.ErrorCode

abbrev pub invalid_request : String → Verdict
invalid_request message = err (base_error ErrorCode.invalid_request message)

abbrev pub refuse_if : Bool → String → Verdict
refuse_if b message = if b then invalid_request message else ok tt

-- `if err != nil { return err }` between two validations.
infixr 4 ◌else_refuse◌
abbrev pub ◌else_refuse◌ : Verdict → Verdict → Verdict
(ok u) else_refuse v = v
(err e) else_refuse v = err e
panic else_refuse v = panic
crash else_refuse v = crash

-- runValidations
unfoldable pub run_validations : List Verdict → Verdict
run_validations [] = ok tt
run_validations (v ∷ vs) = v else_refuse run_validations vs

-- A test on a list of algorithms that is looked up only where it is needed.
abbrev pub refuse_unless_listed : Outcome (List String) → String → String → Verdict
refuse_unless_listed (ok algorithms) algorithm message =
    refuse_if (not (contains algorithms algorithm)) message
refuse_unless_listed (err e) algorithm message = err e
refuse_unless_listed panic algorithm message = panic
refuse_unless_listed crash algorithm message = crash

-- The algorithms of a pair, where encryption is off.
abbrev pub refuse_encryption : String → String → String → Verdict
refuse_encryption key_algorithm content_algorithm message =
    refuse_if (not (is_empty key_algorithm) || not (is_empty content_algorithm)) message

-- The content encryption of a pair, where encryption is on.
abbrev pub validate_content_encryption : List String → String → String → String → String → Verdict
validate_content_encryption available key_algorithm content_algorithm required unsupported =
    refuse_if (not (is_empty content_algorithm) && is_empty key_algorithm) required
    else_refuse refuse_if
        (not (is_empty content_algorithm) && not (contains available content_algorithm)) unsupported

module _ (ctx : Context) (req : DynamicClientRequest) where
  -- validateIDTokenSignatureAlgorithm
  unfoldable pub validate_id_token_signature_algorithm : Verdict
  unfolding user_info_signature_algorithms
  validate_id_token_signature_algorithm =
      if is_empty req.id_token_signature_algorithm
      then ok tt
      else refuse_unless_listed (user_info_signature_algorithms ctx)
          req.id_token_signature_algorithm "id_token_signed_response_alg not supported"

  unfoldable pub validate_user_info_signature_algorithm : Verdict
  unfolding user_info_signature_algorithms
  validate_user_info_signature_algorithm =
      if is_empty req.user_info_signature_algorithm
      then ok tt
      else refuse_unless_listed (user_info_signature_algorithms ctx)
          req.user_info_signature_algorithm "id_token_signed_response_alg not supported"

  -- validateJARSignatureAlgorithm
  unfoldable pub validate_jar_signature_algorithm : Verdict
  validate_jar_signature_algorithm =
      if is_empty req.jar_signature_algorithm
      then ok tt
      else refuse_if (not (contains ctx.jar_signature_algorithms req.jar_signature_algorithm))
          "request_object_signing_alg not supported"

  -- validateJARMSignatureAlgorithm
  unfoldable pub validate_jarm_signature_algorithm : Verdict
  unfolding jarm_signature_algorithms
  validate_jarm_signature_algorithm =
      if is_empty req.jarm_signature_algorithm
      then ok tt
      else refuse_unless_listed (jarm_signature_algorithms ctx) req.jarm_signature_algorithm
          "authorization_signed_response_alg not supported"

  -- validateClientSignatureAlgorithmForPrivateKeyJWT
  unfoldable pub validate_client_signature_algorithm_for_private_key_jwt : Verdict
  validate_client_signature_algorithm_for_private_key_jwt =
      if req.authn_method != ClientAuthn.private_key_jwt
      then ok tt
      else if is_empty req.authn_signature_algorithm
      then ok tt
      else refuse_if
          (not (contains ctx.private_key_jwt_signature_algorithms req.authn_signature_algorithm))
          "token_endpoint_auth_signing_alg not supported"

  -- validateClientSignatureAlgorithmForClientSecretJWT
  unfoldable pub validate_client_signature_algorithm_for_client_secret_jwt : Verdict
  validate_client_signature_algorithm_for_client_secret_jwt =
      if req.authn_method != ClientAuthn.secret_jwt
      then ok tt
      else if is_empty req.authn_signature_algorithm
      then ok tt
      else refuse_if
          (not (contains ctx.client_secret_jwt_signature_algorithms req.authn_signature_algorithm))
          "token_endpoint_auth_signing_alg not supported"

  -- validateIDTokenEncryptionAlgorithms
  unfoldable pub validate_id_token_encryption_algorithms : Verdict
  validate_id_token_encryption_algorithms =
      if not ctx.user_info_encryption_is_enabled
      then refuse_encryption req.id_token_key_encryption_algorithm
          req.id_token_content_encryption_algorithm "ID token encryption is not supported"
      else refuse_if
          (not (is_empty req.id_token_key_encryption_algorithm)
            && not (
                contains ctx.user_info_key_encryption_algorithms
                  req.id_token_key_encryption_algorithm))
          "id_token_encrypted_response_alg not supported"
        else_refuse validate_content_encryption ctx.user_info_content_encryption_algorithms
            req.id_token_key_encryption_algorithm req.id_token_content_encryption_algorithm
            "id_token_encrypted_response_alg is required if id_token_encrypted_response_enc is informed"
            "id_token_encrypted_response_enc not supported"

  unfoldable pub validate_user_info_encryption_algorithms : Verdict
  validate_user_info_encryption_algorithms =
      if not ctx.user_info_encryption_is_enabled
      then refuse_encryption req.user_info_key_encryption_algorithm
          req.user_info_content_encryption_algorithm "user info encryption is not supported"
      else refuse_if
          (not (is_empty req.user_info_key_encryption_algorithm)
            && not (
                contains ctx.user_info_key_encryption_algorithms
                  req.user_info_key_encryption_algorithm))
          "userinfo_encrypted_response_alg not supported"
        else_refuse validate_content_encryption ctx.user_info_content_encryption_algorithms
            req.user_info_key_encryption_algorithm req.user_info_content_encryption_algorithm
            "userinfo_encrypted_response_alg is required if userinfo_encrypted_response_enc is informed"
            "userinfo_encrypted_response_enc not supported"

  -- validateJARMEncryptionAlgorithms
  unfoldable pub validate_jarm_encryption_algorithms : Verdict
  validate_jarm_encryption_algorithms =
      if not ctx.jarm_is_enabled
      then refuse_encryption req.jarm_key_encryption_algorithm req.jarm_content_encryption_algorithm
          "jarm encryption is not supported"
      else refuse_if
          (not (is_empty req.jarm_key_encryption_algorithm)
            && not (contains ctx.jarm_key_encryption_algorithms req.jarm_key_encryption_algorithm))
          "authorization_encrypted_response_alg not supported"
        else_refuse validate_content_encryption ctx.jarm_content_encryption_algorithms
            req.jarm_key_encryption_algorithm req.jarm_content_encryption_algorithm
            "authorization_encrypted_response_alg is required if authorization_encrypted_response_enc is informed"
            "authorization_encrypted_response_enc not supported"

  abbrev pub refuse_unless_key_algorithm : Verdict
  refuse_unless_key_algorithm =
      if is_empty req.jar_key_encryption_algorithm
      then ok tt
      else refuse_unless_listed (jar_key_encryption_algorithms ctx) req.jar_key_encryption_algorithm
          "request_object_encryption_alg not supported"

  -- validateJAREncryptionAlgorithms
  unfoldable pub validate_jar_encryption_algorithms : Verdict
  unfolding jar_key_encryption_algorithms
  validate_jar_encryption_algorithms =
      if not ctx.jar_encryption_is_enabled
      then refuse_encryption req.jar_key_encryption_algorithm req.jar_content_encryption_algorithm
          "jar encryption is not supported"
      else refuse_unless_key_algorithm
        else_refuse validate_content_encryption ctx.jar_content_encryption_algorithms
            req.jar_key_encryption_algorithm req.jar_content_encryption_algorithm
            "request_object_encryption_alg is required if request_object_encryption_enc is informed"
            "request_object_encryption_enc not supported"
