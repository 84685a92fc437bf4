-- ===== src/Model/Const/GrantType.antt =====
-- The grant types of pkg/goidc/const.go, texts that a request or a client may hold.
use goidc.Base.{String}

abbrev pub client_credentials : String
client_credentials = "client_credentials"

abbrev pub authorization_code : String
authorization_code = "authorization_code"

abbrev pub refresh_token : String
refresh_token = "refresh_token"

abbrev pub implicit : String
implicit = "implicit"

abbrev pub introspection : String
introspection = "urn:goidc:oauth2:grant_type:token_intropection"
