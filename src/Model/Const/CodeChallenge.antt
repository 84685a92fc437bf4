-- ===== src/Model/Const/CodeChallenge.antt =====
-- The PKCE code challenge methods of pkg/goidc/const.go, texts that a request or a client may hold.
use goidc.Base.{String}

abbrev pub sha256 : String
sha256 = "S256"

abbrev pub plain : String
plain = "plain"
