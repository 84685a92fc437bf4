-- ===== src/Discovery.antt =====
-- The discovery of the server's metadata and of its keys (internal/discovery/util.go, api.go).
pub mod Document
use goidc.Base.{
  String, Bool, true, false, Option, none, some, List, [], ◌∷◌, ◌<>◌, ◌&&◌, map, if◌then◌else◌,
}
use goidc.Model.Const.Endpoint
use goidc.Oidc.Algorithms.{
  user_info_signature_algorithms, jarm_signature_algorithms, jar_key_encryption_algorithms,
  introspection_client_signature_algorithms, base_url, mtls_base_url,
}
use goidc.Oidc.Context.{Context}
use goidc.Oidc.Effect.{Outcome, ok, err, panic, crash}
use goidc.Oidc.Keys.{client_signature_algorithms, public_keys}
use goidc.Oidc.Library.{Jwk}
use Document.{OpenIdConfiguration, OpenIdMtlsConfiguration}

abbrev pub with_list :
    Outcome (List String)
    → (List String → Outcome OpenIdConfiguration)
    → Outcome OpenIdConfiguration
with_list (ok xs) k = k xs
with_list (err e) k = err e
with_list panic k = panic
with_list crash k = crash

-- A list that is looked up only if the feature is on.
abbrev pub list_if : Bool → Outcome (List String) → Outcome (List String)
list_if b xs = if b then xs else ok []

abbrev text_if : Bool → String → String
text_if b s = if b then s else ""

abbrev listed_if : Bool → List String → List String
listed_if b xs = if b then xs else []

module _ (ctx : Context) where
  -- MTLSConfiguration; its introspection endpoint is never set.
  unfoldable pub mtls_configuration : OpenIdMtlsConfiguration
  unfolding mtls_base_url
  mtls_configuration = record {
    token_endpoint = mtls_base_url ctx <> Endpoint.token;
    user_info_endpoint = mtls_base_url ctx <> Endpoint.user_info;
    par_endpoint =
        text_if ctx.par_is_enabled (mtls_base_url ctx <> Endpoint.pushed_authorization_request);
    client_registration_endpoint =
        text_if ctx.dcr_is_enabled (mtls_base_url ctx <> Endpoint.dynamic_client);
    introspection_endpoint = "";
  }

  -- The introspection endpoint, which mTLS overwrites.
  abbrev introspection_endpoint : String
  introspection_endpoint = text_if ctx.introspection_is_enabled (
      (if ctx.mtls_is_enabled then mtls_base_url ctx else base_url ctx)
      <> Endpoint.token_introspection)

  -- The document, of the lists that the keys of the server give.
  unfoldable pub document : List String → List String → List String → OpenIdConfiguration
  unfolding base_url mtls_base_url mtls_configuration client_signature_algorithms
      introspection_client_signature_algorithms
  document user_info_algorithms jar_key_algorithms jarm_algorithms = record {
    issuer = ctx.host;
    authorization_endpoint = base_url ctx <> Endpoint.authorization;
    token_endpoint = base_url ctx <> Endpoint.token;
    user_info_endpoint = base_url ctx <> Endpoint.user_info;
    jwks_endpoint = base_url ctx <> Endpoint.json_web_key_set;
    response_types = ctx.response_types;
    response_modes = ctx.response_modes;
    grant_types = ctx.grant_types;
    user_claims_supported = ctx.user_claims;
    claim_types_supported = ctx.claim_types;
    subject_identifier_types = ctx.subject_identifier_types;
    id_token_signature_algorithms = user_info_algorithms;
    user_info_signature_algorithms = user_info_algorithms;
    client_authn_methods = ctx.client_authn_methods;
    scopes = map (λ scope. scope.id) ctx.scopes;
    token_endpoint_client_signing_algorithms = client_signature_algorithms ctx;
    issuer_response_parameter_is_enabled = ctx.issuer_response_parameter_is_enabled;
    claims_parameter_is_enabled = ctx.claims_parameter_is_enabled;
    authorization_details_is_supported = ctx.authorization_details_parameter_is_enabled;
    authorization_detail_types_supported = ctx.authorization_detail_types;
    authentication_context_references = ctx.authentication_context_references;
    display_values_supported = ctx.display_values;
    par_is_required = ctx.par_is_enabled && ctx.par_is_required;
    par_endpoint =
        text_if ctx.par_is_enabled (base_url ctx <> Endpoint.pushed_authorization_request);
    client_registration_endpoint =
        text_if ctx.dcr_is_enabled (base_url ctx <> Endpoint.dynamic_client);
    jar_is_enabled = ctx.jar_is_enabled;
    jar_is_required = ctx.jar_is_enabled && ctx.jar_is_required;
    jar_algorithms = listed_if ctx.jar_is_enabled ctx.jar_signature_algorithms;
    jar_key_encryption_algorithms = jar_key_algorithms;
    jar_content_encryption_algorithms =
        listed_if (ctx.jar_is_enabled && ctx.jar_encryption_is_enabled)
          ctx.jar_content_encryption_algorithms;
    jarm_algorithms = jarm_algorithms;
    jarm_key_encryption_algorithms =
        listed_if (ctx.jarm_is_enabled && ctx.jarm_encryption_is_enabled)
          ctx.jarm_key_encryption_algorithms;
    jarm_content_encryption_algorithms =
        listed_if (ctx.jarm_is_enabled && ctx.jarm_encryption_is_enabled)
          ctx.jarm_content_encryption_algorithms;
    dpop_signature_algorithms = listed_if ctx.dpop_is_enabled ctx.dpop_signature_algorithms;
    introspection_endpoint = introspection_endpoint;
    introspection_endpoint_client_authn_methods =
        listed_if ctx.introspection_is_enabled ctx.introspection_client_authn_methods;
    introspection_endpoint_client_signature_algorithms =
        listed_if ctx.introspection_is_enabled (introspection_client_signature_algorithms ctx);
    mtls_configuration = if ctx.mtls_is_enabled then some mtls_configuration else none;
    tls_bound_tokens_is_enabled = ctx.mtls_is_enabled && ctx.tls_bound_tokens_is_enabled;
    id_token_key_encryption_algorithms =
        listed_if ctx.user_info_encryption_is_enabled ctx.user_info_key_encryption_algorithms;
    id_token_content_encryption_algorithms =
        listed_if ctx.user_info_encryption_is_enabled ctx.user_info_content_encryption_algorithms;
    user_info_key_encryption_algorithms =
        listed_if ctx.user_info_encryption_is_enabled ctx.user_info_key_encryption_algorithms;
    user_info_content_encryption_algorithms =
        listed_if ctx.user_info_encryption_is_enabled ctx.user_info_content_encryption_algorithms;
  }

  unfoldable pub well_known : Outcome OpenIdConfiguration
  unfolding document user_info_signature_algorithms jar_key_encryption_algorithms
      jarm_signature_algorithms
  well_known = with_list (user_info_signature_algorithms ctx) λ user_info_algorithms.
      with_list
        (list_if (ctx.jar_is_enabled && ctx.jar_encryption_is_enabled)
          (jar_key_encryption_algorithms ctx))
        λ jar_key_algorithms.
          with_list (list_if ctx.jarm_is_enabled (jarm_signature_algorithms ctx))
            λ jarm_algorithms. ok (document user_info_algorithms jar_key_algorithms jarm_algorithms)
