-- ===== src/Token/Model.antt =====
-- The data of internal/token (model.go, const.go).
use goidc.Base.{ℕ, ◌+◌, String, Option, none, List}
use goidc.Model.Value.{AuthorizationDetail, Claims}
use goidc.Model.Session.{GrantSession, TokenOptions}
use goidc.Authn.ClientId.{ClientAuthnRequest}

abbrev pub refresh_token_length : ℕ
refresh_token_length = 99

pub record GrantOptions : Type 0 where
  pub grant_type : String
  pub subject : String
  pub client_id : String
  pub granted_scopes : String
  pub granted_authorization_details : Option (List AuthorizationDetail)
  pub additional_id_token_claims : Claims
  pub additional_user_info_claims : Claims
  pub token_options : TokenOptions
  pub open token_options use *

unfoldable pub new_grant_options : GrantSession → GrantOptions
new_grant_options g = record {
  grant_type = g.grant_type;
  subject = g.subject;
  client_id = g.client_id;
  granted_scopes = g.granted_scopes;
  granted_authorization_details = g.granted_authorization_details;
  additional_id_token_claims = g.additional_id_token_claims;
  additional_user_info_claims = g.additional_user_info_claims;
  token_options = g.token_options;
}

pub record Token : Type 0 where
  pub id : String
  pub format : String
  pub value : String
  pub type : String
  pub jwk_thumbprint : String
  pub certificate_thumbprint : String

pub record IdTokenOptions : Type 0 where
  pub subject : String
  pub additional_id_token_claims : Claims
  pub access_token : String
  pub authorization_code : String
  pub state : String

unfoldable pub new_id_token_options : GrantOptions → IdTokenOptions
new_id_token_options o = record {
  subject = o.subject;
  additional_id_token_claims = o.additional_id_token_claims;
  access_token = "";
  authorization_code = "";
  state = "";
}

-- DPoPJWTValidationOptions
pub record DpopOptions : Type 0 where
  pub access_token : String
  pub jwk_thumbprint : String

pub record Confirmation : Type 0 where
  pub jwk_thumbprint : String
  pub client_certificate_thumbprint : String

pub record TokenRequest : Type 0 where
  pub grant_type : String
  pub scopes : String
  pub authorization_code : String
  pub redirect_uri : String
  pub refresh_token : String
  pub code_verifier : String
  pub client_authn : ClientAuthnRequest

pub record TokenResponse : Type 0 where
  pub access_token : String
  pub id_token : String
  pub refresh_token : String
  pub expires_in : ℕ
  pub token_type : String
  pub scopes : String
  pub authorization_details : Option (List AuthorizationDetail)

-- tokenResponse{}
abbrev pub empty_response : TokenResponse
empty_response = record {
  access_token = "";
  id_token = "";
  refresh_token = "";
  expires_in = 0;
  token_type = "";
  scopes = "";
  authorization_details = none;
}

pub record TokenIntrospectionRequest : Type 0 where
  pub token : String
  pub token_type_hint : String
  pub client_authn : ClientAuthnRequest

-- NewGrantSession, with the UUID that it draws and the time.
unfoldable pub new_grant_session : String → ℕ → GrantOptions → Token → GrantSession
new_grant_session uuid now o token = record {
  id = uuid;
  jwk_thumbprint = token.jwk_thumbprint;
  client_certificate_thumbprint = token.certificate_thumbprint;
  token_id = token.id;
  refresh_token = "";
  last_token_issued_at_timestamp = now;
  created_at_timestamp = now;
  expires_at_timestamp = now + o.token_lifetime_secs;
  active_scopes = o.granted_scopes;
  grant_type = o.grant_type;
  subject = o.subject;
  client_id = o.client_id;
  granted_scopes = o.granted_scopes;
  granted_authorization_details = o.granted_authorization_details;
  additional_id_token_claims = o.additional_id_token_claims;
  additional_user_info_claims = o.additional_user_info_claims;
  token_options = o.token_options;
}
