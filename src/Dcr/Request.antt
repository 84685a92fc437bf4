-- ===== src/Dcr/Request.antt =====
-- What a client sends to register, and what it is sent (internal/dcr/model.go).
use goidc.Base.{String, false, none, []}
use goidc.Model.Client.{ClientMetaInfo}

pub record DynamicClientRequest : Type 0 where
  pub id : String
  pub initial_access_token : String
  pub registration_access_token : String
  pub secret : String
  pub meta : ClientMetaInfo
  pub open meta use *

pub record DynamicClientResponse : Type 0 where
  pub id : String
  pub secret : String
  pub registration_access_token : String
  pub registration_uri : String
  pub meta : ClientMetaInfo

-- ClientMetaInfo{}
abbrev pub empty_meta : ClientMetaInfo
empty_meta = record {
  name = "";
  logo_uri = "";
  redirect_uris = [];
  grant_types = [];
  response_types = none;
  public_jwks_uri = "";
  public_jwks = none;
  scopes = "";
  subject_identifier_type = "";
  id_token_signature_algorithm = "";
  id_token_key_encryption_algorithm = "";
  id_token_content_encryption_algorithm = "";
  user_info_signature_algorithm = "";
  user_info_key_encryption_algorithm = "";
  user_info_content_encryption_algorithm = "";
  jar_signature_algorithm = "";
  jar_key_encryption_algorithm = "";
  jar_content_encryption_algorithm = "";
  jarm_signature_algorithm = "";
  jarm_key_encryption_algorithm = "";
  jarm_content_encryption_algorithm = "";
  authn_method = "";
  authn_signature_algorithm = "";
  dpop_is_required = false;
  tls_subject_distinguished_name = "";
  tls_subject_alternative_name = "";
  tls_subject_alternative_name_ip = "";
  authorization_detail_types = none;
  default_max_age_secs = none;
  default_acr_values = "";
  custom_attributes = none;
}
