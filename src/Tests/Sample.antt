-- ===== src/Tests/Sample.antt =====
-- A server, a client and sessions to run the handlers on.
use goidc.Base.{true, false, none, some, [], ◌∷◌, ◌==◌, ◌<>◌}
use goidc.Authn.ClientId.{ClientAuthnRequest}
use goidc.Model.Client.{Client, ClientMetaInfo, new_scope}
use goidc.Model.Params.{AuthorizationParameters}
use goidc.Model.Session.{AuthnSession, GrantSession, TokenOptions}
use goidc.Oidc.Config.{AuthnPolicy, Configuration, Request}
use goidc.Oidc.Context.{Context, State}
use goidc.Oidc.Effect.{Outcome, ok, err, panic, crash}
use goidc.Oidc.Library.{Library}
use goidc.Storage.{found, failed}
use goidc.Token.AuthzCode.Replay.{in_memory}
use goidc.Token.Model.{TokenRequest, TokenIntrospectionRequest}

abbrev pub library : Library
library = record {
  canonical_header_key = λ k. k;
  query_unescape = λ s. some s;
  pem_decode = λ s. none;
  parse_certificate = λ s. none;
  url_without_params = λ s. some s;
  to_lower = λ s. s;
  match_string = λ pattern s. false;
  sha256 = λ s. "sha256:" <> s;
  sha1 = λ s. s;
  base64_url = λ s. s;
  sha384 = λ s. s;
  sha512 = λ s. s;
  first_half = λ s. s;
  compare_hash_and_password = λ hashed password. hashed == password;
  generate_from_password = λ s. s;
  parse_signed = λ token algorithms. none;
  parse_signed_error = λ token algorithms. "not signed";
  unsafe_claims = λ token. none;
  verified_claims = λ token key. none;
  validate_claims = λ claims expected now. false;
  jwk_valid = λ k. true;
  jwk_is_public = λ k. true;
  jwk_public = λ k. k;
  jwk_thumbprint = λ k. "";
  keys_equal = λ k l. false;
  keys_by_id = λ ks id. [];
  unmarshal_jwks = λ raw. failed "no keys";
  http_get = λ uri. none;
  sign_claims = λ key type claims. found "signed";
  encrypt = λ key algorithm text. found text;
  decrypt_request_object = λ object key_algorithms content_algorithms. none;
  details_equal = λ a b. true;
  rand_int = λ draws max. found 0;
  new_uuid = λ draws. "uuid";
  execute_template = λ uri params. none;
  url_with_query = λ url query. some url;
  encode_values = λ query. "";
}

abbrev pub token_options : TokenOptions
token_options = record {
  token_format = "opaque";
  token_lifetime_secs = 60;
  jwt_signature_key_id = "";
  opaque_token_length = 5;
  additional_token_claims = [];
}

-- A policy that is always available and succeeds at once.
abbrev pub login : AuthnPolicy
login = record {
  id = "login";
  set_up = λ request client session. (true, session);
  authenticate = λ request session. ("success", session);
}

abbrev pub config : Configuration
config = record {
  profile = "oidc_profile";
  host = "https://server.example";
  path_prefix = "";
  mtls_is_enabled = false;
  mtls_host = "";
  scopes = new_scope "payments" ∷ new_scope "openid" ∷ [];
  private_jwks = [];
  default_token_signature_key_id = "";
  grant_types = "authorization_code" ∷ "client_credentials" ∷ "refresh_token" ∷ [];
  response_types = "code" ∷ [];
  response_modes = "query" ∷ "fragment" ∷ "form_post" ∷ [];
  client_authn_methods = "client_secret_post" ∷ [];
  introspection_is_enabled = true;
  introspection_client_authn_methods = "client_secret_post" ∷ [];
  private_key_jwt_signature_algorithms = [];
  private_key_jwt_assertion_lifetime_secs = 0;
  client_secret_jwt_signature_algorithms = [];
  client_secret_jwt_assertion_lifetime_secs = 0;
  open_id_scope_is_required = false;
  default_user_info_signature_key_id = "";
  user_info_signature_key_ids = [];
  user_info_encryption_is_enabled = false;
  user_info_key_encryption_algorithms = [];
  user_info_content_encryption_algorithms = [];
  id_token_expires_in_secs = 60;
  should_rotate_refresh_tokens = true;
  refresh_token_lifetime_secs = 600;
  user_claims = [];
  claim_types = "normal" ∷ [];
  issuer_response_parameter_is_enabled = false;
  claims_parameter_is_enabled = false;
  authorization_details_parameter_is_enabled = false;
  authorization_detail_types = [];
  jarm_is_enabled = false;
  default_jarm_signature_key_id = "";
  jarm_signature_key_ids = [];
  jarm_lifetime_secs = 0;
  jarm_encryption_is_enabled = false;
  jarm_key_encryption_algorithms = [];
  jarm_content_encryption_algorithms = [];
  jar_is_enabled = false;
  jar_is_required = false;
  jar_signature_algorithms = [];
  jar_lifetime_secs = 0;
  jar_encryption_is_enabled = false;
  jar_key_encryption_ids = [];
  jar_content_encryption_algorithms = [];
  par_is_enabled = false;
  par_is_required = false;
  par_lifetime_secs = 0;
  dpop_is_enabled = false;
  dpop_is_required = false;
  dpop_lifetime_secs = 0;
  dpop_signature_algorithms = [];
  pkce_is_enabled = true;
  pkce_is_required = false;
  code_challenge_methods = "S256" ∷ "plain" ∷ [];
  subject_identifier_types = "public" ∷ [];
  policies = login ∷ [];
  token_options = λ client scopes. found token_options;
  dcr_is_enabled = true;
  should_rotate_registration_tokens = false;
  dcr_plugin = none;
  authentication_session_timeout_secs = 60;
  tls_bound_tokens_is_enabled = false;
  authentication_context_references = [];
  display_values = [];
  sender_constrained_token_is_required = false;
  authorize_error_plugin = none;
}

abbrev pub request : Request
request = record {
  method = "POST";
  request_uri = "/token";
  headers = ("Authorization", "Bearer aaaaa" ∷ []) ∷ [];
  basic_auth = none;
  form = [];
  is_done = false;
}

abbrev pub ctx : Context
ctx = in_memory config request library 100

abbrev pub meta : ClientMetaInfo
meta = record {
  name = "shop";
  logo_uri = "";
  redirect_uris = "https://shop.example" ∷ [];
  grant_types =
      "authorization_code" ∷ "client_credentials" ∷ "refresh_token"
      ∷ "urn:goidc:oauth2:grant_type:token_intropection" ∷ [];
  response_types = some ("code" ∷ []);
  public_jwks_uri = "";
  public_jwks = none;
  scopes = "payments openid";
  subject_identifier_type = "public";
  id_token_signature_algorithm = "";
  id_token_key_encryption_algorithm = "";
  id_token_content_encryption_algorithm = "";
  user_info_signature_algorithm = "";
  user_info_key_encryption_algorithm = "";
  user_info_content_encryption_algorithm = "";
  jar_signature_algorithm = "";
  jar_key_encryption_algorithm = "";
  jar_content_encryption_algorithm = "";
  jarm_signature_algorithm = "";
  jarm_key_encryption_algorithm = "";
  jarm_content_encryption_algorithm = "";
  authn_method = "client_secret_post";
  authn_signature_algorithm = "";
  dpop_is_required = false;
  tls_subject_distinguished_name = "";
  tls_subject_alternative_name = "";
  tls_subject_alternative_name_ip = "";
  authorization_detail_types = none;
  default_max_age_secs = none;
  default_acr_values = "";
  custom_attributes = none;
}

abbrev pub shop : Client
shop = record {
  id = "shop";
  secret = "";
  hashed_secret = "secret";
  hashed_registration_access_token = "";
  meta = meta;
}

abbrev pub params : AuthorizationParameters
params = record {
  request_uri = "";
  request_object = "";
  redirect_uri = "https://shop.example/back";
  response_mode = "";
  response_type = "code";
  scopes = "payments";
  state = "";
  nonce = "";
  code_challenge = "0123456789012345678901234567890123456789012";
  code_challenge_method = "plain";
  prompt = "";
  max_authn_age_secs = none;
  display = "";
  acr_values = "";
  claims = none;
  authorization_details = none;
}

abbrev pub session : AuthnSession
session = record {
  id = "session";
  callback_id = "";
  policy_id = "login";
  expires_at_timestamp = 150;
  created_at_timestamp = 90;
  subject = "alice";
  client_id = "shop";
  granted_scopes = "payments";
  granted_authorization_details = none;
  authorization_code = "code";
  protected_parameters = [];
  store = [];
  additional_token_claims = [];
  additional_id_token_claims = [];
  additional_user_info_claims = [];
  params = params;
  error = none;
}

abbrev pub grant : GrantSession
grant = record {
  id = "grant";
  jwk_thumbprint = "";
  client_certificate_thumbprint = "";
  token_id = "aaaaa";
  refresh_token = "refresh";
  last_token_issued_at_timestamp = 90;
  created_at_timestamp = 90;
  expires_at_timestamp = 600;
  active_scopes = "payments openid";
  grant_type = "authorization_code";
  subject = "alice";
  client_id = "shop";
  granted_scopes = "payments openid";
  granted_authorization_details = none;
  additional_id_token_claims = [];
  additional_user_info_claims = [];
  token_options = token_options;
}

abbrev pub before : State ctx
before = record {
  static_clients = [];
  clients = ("shop", shop) ∷ [];
  authn_sessions = ("session", session) ∷ [];
  grant_sessions = ("grant", grant) ∷ [];
  draws = 0;
  responses = [];
}

abbrev pub credentials : ClientAuthnRequest
credentials = record {
  client_id = "shop";
  client_secret = "secret";
  client_assertion_type = "";
  client_assertion = "";
}

abbrev pub token_request : TokenRequest
token_request = record {
  grant_type = "authorization_code";
  scopes = "payments";
  authorization_code = "code";
  redirect_uri = "https://shop.example/back";
  refresh_token = "refresh";
  code_verifier = "0123456789012345678901234567890123456789012";
  client_authn = credentials;
}

abbrev pub introspection_request : TokenIntrospectionRequest
introspection_request = record { token = "aaaaa"; token_type_hint = ""; client_authn = credentials }

-- The value that an outcome has, or the one given.
abbrev pub value_or {ℓ} : {A : Type ℓ} → A → Outcome A → A
value_or default (ok a) = a
value_or default (err e) = default
value_or default panic = default
value_or default crash = default
