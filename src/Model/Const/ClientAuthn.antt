-- ===== src/Model/Const/ClientAuthn.antt =====
-- The client authentication methods of pkg/goidc/const.go, texts that a request or a client may hold.
use goidc.Base.{String}

abbrev pub none_authn : String
none_authn = "none"

abbrev pub secret_basic : String
secret_basic = "client_secret_basic"

abbrev pub secret_post : String
secret_post = "client_secret_post"

abbrev pub secret_jwt : String
secret_jwt = "client_secret_jwt"

abbrev pub private_key_jwt : String
private_key_jwt = "private_key_jwt"

abbrev pub tls : String
tls = "tls_client_auth"

abbrev pub self_signed_tls : String
self_signed_tls = "self_signed_tls_client_auth"
