-- ===== src/Model/Const/Endpoint.antt =====
-- The paths of the endpoints (pkg/goidc/const.go).
use goidc.Base.{String}

abbrev pub well_known : String
well_known = "/.well-known/openid-configuration"

abbrev pub json_web_key_set : String
json_web_key_set = "/jwks"

abbrev pub pushed_authorization_request : String
pushed_authorization_request = "/par"

abbrev pub authorization : String
authorization = "/authorize"

abbrev pub token : String
token = "/token"

abbrev pub user_info : String
user_info = "/userinfo"

abbrev pub dynamic_client : String
dynamic_client = "/register"

abbrev pub token_introspection : String
token_introspection = "/introspect"
