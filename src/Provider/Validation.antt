-- ===== src/Provider/Validation.antt =====
-- The validations of a configuration (pkg/provider/validations.go, and validateConfiguration of
-- pkg/provider/provider.go).
pub mod Valid
use goidc.Base.{
  String, Bool, Option, none, some, List, [], ◌∷◌, ◌++◌, ◌<>◌, ◌==◌, ◌!=◌, ◌&&◌, ◌||◌, not, all,
  any, contains, starts_with, if◌then◌else◌,
}
use goidc.Dcr.Client.{a128cbc_hs256}
use goidc.Model.Const.ClientAuthn
use goidc.Model.Const.GrantType
use goidc.Model.Const.KeyUsage
use goidc.Model.Const.Profile
use goidc.Oidc.Config.{Configuration}
use goidc.Oidc.Library.{Jwk, Library}

-- nil, an error by its text, or the panic of an index out of range.
pub data Validity : Type 0 where
  valid : Validity
  invalid : String → Validity
  broken : Validity

infixr 4 ◌and_valid◌
abbrev pub ◌and_valid◌ : Validity → Validity → Validity
valid and_valid v = v
(invalid message) and_valid v = invalid message
broken and_valid v = broken

abbrev pub invalid_if : Bool → String → Validity
invalid_if b message = if b then invalid message else valid

-- runValidations
unfoldable pub run_validations : List Validity → Validity
run_validations [] = valid
run_validations (v ∷ vs) = v and_valid run_validations vs

module _ (library : Library) (config : Configuration) where
  abbrev validate_keys : List Jwk → Validity
  validate_keys [] = valid
  validate_keys (key ∷ keys) =
      invalid_if (not (library.jwk_valid key))
        ("the key with ID: " <> (key.key_id <> " is not valid"))
      and_valid validate_keys keys

  -- validateJWKS
  unfoldable pub validate_jwks : Validity
  validate_jwks = validate_keys config.private_jwks

  -- The key of an ID, of which there must be one.
  abbrev pub only_key : String → List Jwk → (Jwk → Validity) → Validity
  only_key key_id (key ∷ []) test = test key
  only_key key_id keys test =
      invalid ("the key ID: " <> (key_id <> " is not present in the server JWKS or is duplicated"))

  abbrev pub validate_signature_key : String → Jwk → Validity
  validate_signature_key key_id key =
      invalid_if (key.usage != KeyUsage.signature)
        ("the key ID: " <> (key_id <> " is not meant for signing"))
      and_valid invalid_if (starts_with key.algorithm "HS")
          "symetric algorithms are not allowed for signing"

  abbrev pub validate_signature_key_ids : List String → Validity
  validate_signature_key_ids [] = valid
  validate_signature_key_ids (key_id ∷ key_ids) =
      only_key key_id (library.keys_by_id config.private_jwks key_id)
        (validate_signature_key key_id)
      and_valid validate_signature_key_ids key_ids

  unfoldable pub validate_signature_keys : Validity
  validate_signature_keys = validate_signature_key_ids (
      config.default_user_info_signature_key_id
      ∷ (config.user_info_signature_key_ids ++ config.jarm_signature_key_ids))

  abbrev pub validate_encryption_key_ids : List String → Validity
  validate_encryption_key_ids [] = valid
  validate_encryption_key_ids (key_id ∷ key_ids) =
      only_key key_id (library.keys_by_id config.private_jwks key_id) (λ key.
        invalid_if (key.usage != KeyUsage.encryption)
          ("the key ID: " <> (key_id <> " is not meant for encryption")))
      and_valid validate_encryption_key_ids key_ids

  unfoldable pub validate_encryption_keys : Validity
  validate_encryption_keys = validate_encryption_key_ids config.jar_key_encryption_ids

  -- validatePrivateKeyJWTSignatureAlgorithms
  unfoldable pub validate_private_key_jwt_signature_algorithms : Validity
  validate_private_key_jwt_signature_algorithms =
      invalid_if (any (λ alg. starts_with alg "HS") config.private_key_jwt_signature_algorithms)
        "symetric algorithms are not allowed for private_key_jwt authentication"

  -- validateClientSecretJWTSignatureAlgorithms
  unfoldable pub validate_client_secret_jwt_signature_algorithms : Validity
  validate_client_secret_jwt_signature_algorithms =
      invalid_if
        (not (all (λ alg. starts_with alg "HS") config.client_secret_jwt_signature_algorithms))
        "assymetric algorithms are not allowed for client_secret_jwt authentication"

  unfoldable pub validate_introspection_client_authn_methods : Validity
  validate_introspection_client_authn_methods =
      if not config.introspection_is_enabled
      then valid
      else invalid_if (not (contains config.client_authn_methods ClientAuthn.none_authn))
          "none client authentication method not allowed for token introspection"
        and_valid invalid_if
            (not (
              all (λ method. contains config.client_authn_methods method)
                config.introspection_client_authn_methods))
            "invalid client authentication method for token introspection"

  unfoldable pub validate_user_info_encryption : Validity
  validate_user_info_encryption =
      invalid_if
        (config.user_info_encryption_is_enabled
          && not (contains config.user_info_content_encryption_algorithms a128cbc_hs256))
        "A128CBC-HS256 should be supported as a content key encryption algorithm for user information"

  -- validateJAREncryption
  unfoldable pub validate_jar_encryption : Validity
  validate_jar_encryption =
      invalid_if (config.jar_encryption_is_enabled && not config.jar_is_enabled)
        "JAR must be enabled if JAR encryption is enabled"
      and_valid invalid_if
          (config.jar_encryption_is_enabled
            && not (contains config.jar_content_encryption_algorithms a128cbc_hs256))
          "A128CBC-HS256 should be supported as a content key encryption algorithm for JAR"

  -- validateJARMEncryption
  unfoldable pub validate_jarm_encryption : Validity
  validate_jarm_encryption =
      invalid_if (config.jarm_encryption_is_enabled && not config.jarm_is_enabled)
        "JARM must be enabled if JARM encryption is enabled"
      and_valid invalid_if
          (config.jarm_encryption_is_enabled
            && not (contains config.jarm_content_encryption_algorithms a128cbc_hs256))
          "A128CBC-HS256 should be supported as a content key encryption algorithm for JARM"

  unfoldable pub validate_token_binding : Validity
  validate_token_binding =
      invalid_if
        (config.sender_constrained_token_is_required
          && (not config.dpop_is_enabled && not config.tls_bound_tokens_is_enabled))
        "if sender constraining tokens is required, at least one mechanism must be enabled, either DPoP or TLS"

  -- The first key of an ID must be for RS256; without a key the index is out of range.
  abbrev first_is_rs256 : List Jwk → String → Validity
  first_is_rs256 [] message = broken
  first_is_rs256 (key ∷ keys) message = invalid_if (key.algorithm != "RS256") message

  -- validateOpenIDProfile
  unfoldable pub validate_open_id_profile : Validity
  validate_open_id_profile =
      if config.profile != Profile.open_id
      then valid
      else first_is_rs256
          (library.keys_by_id config.private_jwks config.default_user_info_signature_key_id)
          "the default signature algorithm for ID tokens must be RS256"
        and_valid (if config.jarm_is_enabled
            then first_is_rs256
                (library.keys_by_id config.private_jwks config.default_jarm_signature_key_id)
                "the default signature algorithm for JARM must be RS256"
            else valid)

  -- validateFAPI2Profile
  unfoldable pub validate_fapi2_profile : Validity
  validate_fapi2_profile =
      if config.profile != Profile.fapi2
      then valid
      else invalid_if
          (any (λ method. (method != ClientAuthn.private_key_jwt) && (method != ClientAuthn.tls))
            config.client_authn_methods)
          "only private_key_jwt and tls_client_auth are allowed for FAPI 2.0"
        and_valid invalid_if (contains config.grant_types GrantType.implicit)
            "the implict grant is not allowed for FAPI 2.0"
        and_valid invalid_if (not config.par_is_enabled || not config.par_is_required)
            "pushed authorization requests is required for FAPI 2.0"
        and_valid invalid_if (not config.pkce_is_enabled || not config.pkce_is_required)
            "proof key for code exchange is required for FAPI 2.0"
        and_valid invalid_if (not config.issuer_response_parameter_is_enabled)
            "the issuer response parameter is required for FAPI 2.0"
        and_valid invalid_if
            (contains config.grant_types GrantType.refresh_token
              && config.should_rotate_refresh_tokens)
            "refresh token rotation is not implemented according to FAPI 2.0, so it shouldn't be enabled when using this profile"

  -- The validations that `validateConfiguration` runs, in their order.
  abbrev pub validations : List Validity
  validations =
      validate_jwks ∷ validate_signature_keys ∷ validate_encryption_keys
      ∷ validate_private_key_jwt_signature_algorithms
      ∷ validate_client_secret_jwt_signature_algorithms
      ∷ validate_introspection_client_authn_methods ∷ validate_user_info_encryption
      ∷ validate_jar_encryption ∷ validate_jarm_encryption ∷ validate_token_binding
      ∷ validate_open_id_profile ∷ validate_fapi2_profile ∷ []

  unfoldable pub validate_configuration : Validity
  unfolding run_validations validate_jwks validate_signature_keys validate_encryption_keys
      validate_private_key_jwt_signature_algorithms validate_client_secret_jwt_signature_algorithms
      validate_introspection_client_authn_methods validate_user_info_encryption
      validate_jar_encryption validate_jarm_encryption validate_token_binding
      validate_open_id_profile validate_fapi2_profile
  validate_configuration = run_validations validations
