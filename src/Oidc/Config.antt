-- ===== src/Oidc/Config.antt =====
-- Configuration of internal/oidc/context.go without its managers, and the parts of an HTTP request
-- that the code reads. What the developer configures as a function is a function here; the error
-- plugin gives an error or nil, and what it writes to the user agent is left out.
use goidc.Base.{ℕ, String, Bool, Option, List}
use goidc.Model.Client.{Client, ClientMetaInfo, Scope}
use goidc.Model.Session.{AuthnSession, TokenOptions}
use goidc.Oidc.Effect.{Error}
use goidc.Oidc.Library.{Jwk}
use goidc.Storage.{Fetched}

-- http.Request: the headers by canonical key, the credentials of `BasicAuth`, and the form that was
-- posted, with the first value of each parameter.
-- `is_done` is whether its context is done, which means that the user agent has gone.
pub record Request : Type 0 where
  pub method : String
  pub request_uri : String
  pub headers : List (String × List String)
  pub basic_auth : Option (String × String)
  pub form : List (String × String)
  pub is_done : Bool

-- AuthnPolicy. Both functions may assign to the session.
pub record AuthnPolicy : Type 0 where
  pub id : String
  pub set_up : Request → Client → AuthnSession → Bool × AuthnSession
  pub authenticate : Request → AuthnSession → String × AuthnSession

pub record Configuration : Type 0 where
  pub profile : String
  pub host : String
  pub path_prefix : String
  pub mtls_is_enabled : Bool
  pub mtls_host : String
  pub scopes : List Scope
  pub private_jwks : List Jwk
  pub default_token_signature_key_id : String
  pub grant_types : List String
  pub response_types : List String
  pub response_modes : List String
  pub client_authn_methods : List String
  pub introspection_is_enabled : Bool
  pub introspection_client_authn_methods : List String
  pub private_key_jwt_signature_algorithms : List String
  pub private_key_jwt_assertion_lifetime_secs : ℕ
  pub client_secret_jwt_signature_algorithms : List String
  pub client_secret_jwt_assertion_lifetime_secs : ℕ
  pub open_id_scope_is_required : Bool
  pub default_user_info_signature_key_id : String
  pub user_info_signature_key_ids : List String
  pub user_info_encryption_is_enabled : Bool
  pub user_info_key_encryption_algorithms : List String
  pub user_info_content_encryption_algorithms : List String
  pub id_token_expires_in_secs : ℕ
  pub should_rotate_refresh_tokens : Bool
  pub refresh_token_lifetime_secs : ℕ
  pub user_claims : List String
  pub claim_types : List String
  pub issuer_response_parameter_is_enabled : Bool
  pub claims_parameter_is_enabled : Bool
  pub authorization_details_parameter_is_enabled : Bool
  pub authorization_detail_types : List String
  pub jarm_is_enabled : Bool
  pub default_jarm_signature_key_id : String
  pub jarm_signature_key_ids : List String
  pub jarm_lifetime_secs : ℕ
  pub jarm_encryption_is_enabled : Bool
  pub jarm_key_encryption_algorithms : List String
  pub jarm_content_encryption_algorithms : List String
  pub jar_is_enabled : Bool
  pub jar_is_required : Bool
  pub jar_signature_algorithms : List String
  pub jar_lifetime_secs : ℕ
  pub jar_encryption_is_enabled : Bool
  pub jar_key_encryption_ids : List String
  pub jar_content_encryption_algorithms : List String
  pub par_is_enabled : Bool
  pub par_is_required : Bool
  pub par_lifetime_secs : ℕ
  pub dpop_is_enabled : Bool
  pub dpop_is_required : Bool
  pub dpop_lifetime_secs : ℕ
  pub dpop_signature_algorithms : List String
  pub pkce_is_enabled : Bool
  pub pkce_is_required : Bool
  pub code_challenge_methods : List String
  pub subject_identifier_types : List String
  pub policies : List AuthnPolicy
  pub token_options : Client → String → Fetched TokenOptions
  pub dcr_is_enabled : Bool
  pub should_rotate_registration_tokens : Bool
  pub dcr_plugin : Option (Request → ClientMetaInfo → ClientMetaInfo)
  pub authentication_session_timeout_secs : ℕ
  pub tls_bound_tokens_is_enabled : Bool
  pub authentication_context_references : List String
  pub display_values : List String
  pub sender_constrained_token_is_required : Bool
  pub authorize_error_plugin : Option (Request → Error → Option String)
