-- ===== src/Discovery/Document.antt =====
-- The metadata of the server (internal/discovery/model.go).
use goidc.Base.{String, Bool, Option, List}

pub record OpenIdMtlsConfiguration : Type 0 where
  pub token_endpoint : String
  pub par_endpoint : String
  pub user_info_endpoint : String
  pub client_registration_endpoint : String
  pub introspection_endpoint : String

pub record OpenIdConfiguration : Type 0 where
  pub issuer : String
  pub client_registration_endpoint : String
  pub authorization_endpoint : String
  pub token_endpoint : String
  pub user_info_endpoint : String
  pub jwks_endpoint : String
  pub par_endpoint : String
  pub par_is_required : Bool
  pub response_types : List String
  pub response_modes : List String
  pub grant_types : List String
  pub scopes : List String
  pub user_claims_supported : List String
  pub claim_types_supported : List String
  pub subject_identifier_types : List String
  pub id_token_signature_algorithms : List String
  pub id_token_key_encryption_algorithms : List String
  pub id_token_content_encryption_algorithms : List String
  pub user_info_key_encryption_algorithms : List String
  pub user_info_content_encryption_algorithms : List String
  pub user_info_signature_algorithms : List String
  pub client_authn_methods : List String
  pub jar_is_required : Bool
  pub jar_is_enabled : Bool
  pub jar_algorithms : List String
  pub jar_key_encryption_algorithms : List String
  pub jar_content_encryption_algorithms : List String
  pub jarm_algorithms : List String
  pub jarm_key_encryption_algorithms : List String
  pub jarm_content_encryption_algorithms : List String
  pub token_endpoint_client_signing_algorithms : List String
  pub issuer_response_parameter_is_enabled : Bool
  pub claims_parameter_is_enabled : Bool
  pub authorization_details_is_supported : Bool
  pub authorization_detail_types_supported : List String
  pub dpop_signature_algorithms : List String
  pub introspection_endpoint : String
  pub introspection_endpoint_client_authn_methods : List String
  pub introspection_endpoint_client_signature_algorithms : List String
  pub mtls_configuration : Option OpenIdMtlsConfiguration
  pub tls_bound_tokens_is_enabled : Bool
  pub authentication_context_references : List String
  pub display_values_supported : List String
