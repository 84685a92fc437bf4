-- ===== src/Model/Const/TokenHint.antt =====
-- The hints on a token that is introspected of pkg/goidc/const.go, texts that a request or a client may hold.
use goidc.Base.{String}

abbrev pub access : String
access = "access_token"

abbrev pub refresh : String
refresh = "refresh_token"
