-- ===== src/Model/Session.antt =====
-- TokenOptions and TokenInfo of pkg/goidc/model.go, AuthnSession of pkg/goidc/authn_session.go and
-- GrantSession of pkg/goidc/grant_session.go. A method that assigns fields returns the new value.
-- Timestamps are Unix seconds, taken as natural numbers.
pub mod Assign
pub mod Info
use goidc.Base.{ℕ, ◌+◌, String, Bool, Option, List, [], ltb}
use goidc.Base.Dict.{copy, insert}
use goidc.Model.Const.TokenFormat
use goidc.Model.Params.{AuthorizationParameters, merge}
use goidc.Model.Value.{AuthorizationDetail, Claims, Value}

pub record TokenOptions : Type 0 where
  pub token_format : String
  pub token_lifetime_secs : ℕ
  pub jwt_signature_key_id : String
  pub opaque_token_length : ℕ
  pub additional_token_claims : Claims

-- The copy of `maps.Copy`. A nil map is first made an empty one, which this model does not tell
-- apart.
unfoldable pub add_token_claims : Claims → TokenOptions → TokenOptions
unfolding copy
add_token_claims claims to = record to {
  additional_token_claims = copy claims to.additional_token_claims;
}

-- TokenOptions{}
abbrev pub no_token_options : TokenOptions
no_token_options = record {
  token_format = "";
  token_lifetime_secs = 0;
  jwt_signature_key_id = "";
  opaque_token_length = 0;
  additional_token_claims = [];
}

-- NewJWTTokenOptions
unfoldable pub new_jwt_token_options : String → ℕ → TokenOptions
new_jwt_token_options signature_key_id token_lifetime_secs = record no_token_options {
  token_format = TokenFormat.jwt;
  token_lifetime_secs = token_lifetime_secs;
  jwt_signature_key_id = signature_key_id;
}

unfoldable pub new_opaque_token_options : ℕ → ℕ → TokenOptions
new_opaque_token_options token_length token_lifetime_secs = record no_token_options {
  token_format = TokenFormat.opaque;
  token_lifetime_secs = token_lifetime_secs;
  opaque_token_length = token_length;
}

pub record TokenInfo : Type 0 where
  pub is_active : Bool
  pub token_usage : String
  pub scopes : String
  pub authorization_details : Option (List AuthorizationDetail)
  pub client_id : String
  pub subject : String
  pub expires_at_timestamp : ℕ
  pub jwk_thumbprint : String
  pub client_certificate_thumbprint : String
  pub additional_token_claims : Claims

pub record AuthnSession : Type 0 where
  pub id : String
  pub callback_id : String
  pub policy_id : String
  pub expires_at_timestamp : ℕ
  pub created_at_timestamp : ℕ
  pub subject : String
  pub client_id : String
  pub granted_scopes : String
  pub granted_authorization_details : Option (List AuthorizationDetail)
  pub authorization_code : String
  pub protected_parameters : Claims
  pub store : Claims
  pub additional_token_claims : Claims
  pub additional_id_token_claims : Claims
  pub additional_user_info_claims : Claims
  pub params : AuthorizationParameters
  pub open params use *
  pub error : Option String

unfoldable pub update_params : AuthorizationParameters → AuthnSession → AuthnSession
unfolding merge
update_params params s = record s { params = merge s.params params }

unfoldable pub set_claim_id_token : String → Value → AuthnSession → AuthnSession
unfolding insert
set_claim_id_token claim value s = record s {
  additional_id_token_claims = insert claim value s.additional_id_token_claims;
}

-- AuthnSession.IsExpired, at the time `now`
unfoldable pub authn_session_is_expired : ℕ → AuthnSession → Bool
authn_session_is_expired now s = ltb s.expires_at_timestamp now

pub record GrantSession : Type 0 where
  pub id : String
  pub jwk_thumbprint : String
  pub client_certificate_thumbprint : String
  pub token_id : String
  pub refresh_token : String
  pub last_token_issued_at_timestamp : ℕ
  pub created_at_timestamp : ℕ
  pub expires_at_timestamp : ℕ
  pub active_scopes : String
  pub grant_type : String
  pub subject : String
  pub client_id : String
  pub granted_scopes : String
  pub granted_authorization_details : Option (List AuthorizationDetail)
  pub additional_id_token_claims : Claims
  pub additional_user_info_claims : Claims
  pub token_options : TokenOptions
  pub open token_options use *

-- GrantSession.IsExpired, at the time `now`
unfoldable pub grant_session_is_expired : ℕ → GrantSession → Bool
grant_session_is_expired now g = ltb g.expires_at_timestamp now

unfoldable pub has_last_token_expired : ℕ → GrantSession → Bool
has_last_token_expired now g = ltb (g.last_token_issued_at_timestamp + g.token_lifetime_secs) now
