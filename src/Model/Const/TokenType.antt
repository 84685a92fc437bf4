-- ===== src/Model/Const/TokenType.antt =====
-- The types of access tokens of pkg/goidc/const.go, texts that a request or a client may hold.
use goidc.Base.{String}

abbrev pub bearer : String
bearer = "Bearer"

abbrev pub dpop : String
dpop = "DPoP"
