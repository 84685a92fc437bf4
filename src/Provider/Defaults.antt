-- ===== src/Provider/Defaults.antt =====
-- The provider and its options as functions on it, and its configuration before the options
-- (pkg/provider/provider.go, pkg/provider/const.go, pkg/provider/storage.go).
use goidc.Base.{ℕ, String, false, none, List, [], ◌∷◌}
use goidc.Model.Client.{Client, Scope, new_scope}
use goidc.Model.Const.ClaimType
use goidc.Model.Const.GrantType
use goidc.Model.Const.Profile
use goidc.Model.Const.ResponseMode
use goidc.Model.Const.ResponseType
use goidc.Model.Session.{new_jwt_token_options}
use goidc.Oidc.Config.{Configuration, Request}
use goidc.Oidc.Context.{Context}
use goidc.Oidc.Library.{Jwk, Library}
use goidc.Storage.{ClientManager, AuthnSessionManager, GrantSessionManager, found}
use goidc.Storage.InMemory

-- Provider, whose configuration holds the managers and the static clients too.
pub record Provider : Type 1 where
  pub config : Configuration
  pub open config use *
  pub client_manager : ClientManager
  pub authn_session_manager : AuthnSessionManager
  pub grant_session_manager : GrantSessionManager
  pub static_clients : List Client

abbrev pub ProviderOption : Type 1
ProviderOption = Provider → Provider

-- An option that changes the configuration alone.
abbrev pub on_config : (Configuration → Configuration) → ProviderOption
on_config f p = record p { config = f p.config }

-- goidc.ScopeOpenID
abbrev pub scope_open_id : Scope
scope_open_id = new_scope "openid"

abbrev pub default_authentication_session_timeout_secs : ℕ
default_authentication_session_timeout_secs = 1800

abbrev pub default_id_token_lifetime_secs : ℕ
default_id_token_lifetime_secs = 600

abbrev pub default_token_lifetime_secs : ℕ
default_token_lifetime_secs = 300

-- The configuration that `New` starts with.
unfoldable pub default_config : String → List Jwk → String → Configuration
unfolding new_scope new_jwt_token_options
default_config issuer private_jwks default_signature_key_id = record {
  profile = Profile.open_id;
  host = issuer;
  path_prefix = "";
  mtls_is_enabled = false;
  mtls_host = "";
  scopes = scope_open_id ∷ [];
  private_jwks = private_jwks;
  default_token_signature_key_id = default_signature_key_id;
  grant_types = GrantType.authorization_code ∷ [];
  response_types = ResponseType.code ∷ [];
  response_modes = ResponseMode.query ∷ ResponseMode.fragment ∷ ResponseMode.form_post ∷ [];
  client_authn_methods = [];
  introspection_is_enabled = false;
  introspection_client_authn_methods = [];
  private_key_jwt_signature_algorithms = [];
  private_key_jwt_assertion_lifetime_secs = 0;
  client_secret_jwt_signature_algorithms = [];
  client_secret_jwt_assertion_lifetime_secs = 0;
  open_id_scope_is_required = false;
  default_user_info_signature_key_id = default_signature_key_id;
  user_info_signature_key_ids = default_signature_key_id ∷ [];
  user_info_encryption_is_enabled = false;
  user_info_key_encryption_algorithms = [];
  user_info_content_encryption_algorithms = [];
  id_token_expires_in_secs = default_id_token_lifetime_secs;
  should_rotate_refresh_tokens = false;
  refresh_token_lifetime_secs = 0;
  user_claims = [];
  claim_types = ClaimType.normal ∷ [];
  issuer_response_parameter_is_enabled = false;
  claims_parameter_is_enabled = false;
  authorization_details_parameter_is_enabled = false;
  authorization_detail_types = [];
  jarm_is_enabled = false;
  default_jarm_signature_key_id = "";
  jarm_signature_key_ids = [];
  jarm_lifetime_secs = 0;
  jarm_encryption_is_enabled = false;
  jarm_key_encryption_algorithms = [];
  jarm_content_encryption_algorithms = [];
  jar_is_enabled = false;
  jar_is_required = false;
  jar_signature_algorithms = [];
  jar_lifetime_secs = 0;
  jar_encryption_is_enabled = false;
  jar_key_encryption_ids = [];
  jar_content_encryption_algorithms = [];
  par_is_enabled = false;
  par_is_required = false;
  par_lifetime_secs = 0;
  dpop_is_enabled = false;
  dpop_is_required = false;
  dpop_lifetime_secs = 0;
  dpop_signature_algorithms = [];
  pkce_is_enabled = false;
  pkce_is_required = false;
  code_challenge_methods = [];
  subject_identifier_types = "public" ∷ [];
  policies = [];
  token_options = λ client scopes.
      found (new_jwt_token_options default_signature_key_id default_token_lifetime_secs);
  dcr_is_enabled = false;
  should_rotate_registration_tokens = false;
  dcr_plugin = none;
  authentication_session_timeout_secs = default_authentication_session_timeout_secs;
  tls_bound_tokens_is_enabled = false;
  authentication_context_references = [];
  display_values = [];
  sender_constrained_token_is_required = false;
  authorize_error_plugin = none;
}

unfoldable pub default_provider : String → List Jwk → String → Provider
unfolding default_config
default_provider issuer private_jwks default_signature_key_id = record {
  config = default_config issuer private_jwks default_signature_key_id;
  client_manager = InMemory.client_manager;
  authn_session_manager = InMemory.authn_session_manager;
  grant_session_manager = InMemory.grant_session_manager;
  static_clients = [];
}

-- oidc.NewContext, for a request that the provider serves.
abbrev pub new_context : Provider → Library → Request → ℕ → Context
new_context p library request now = record {
  config = p.config;
  request = request;
  library = library;
  now = now;
  client_manager = p.client_manager;
  authn_session_manager = p.authn_session_manager;
  grant_session_manager = p.grant_session_manager;
}
