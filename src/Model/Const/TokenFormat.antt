-- ===== src/Model/Const/TokenFormat.antt =====
-- The formats of access tokens of pkg/goidc/const.go, texts that a request or a client may hold.
use goidc.Base.{String}

abbrev pub jwt : String
jwt = "jwt"

abbrev pub opaque : String
opaque = "opaque"
