-- ===== src/Model/Const/KeyUsage.antt =====
-- The usages of a key of pkg/goidc/const.go, texts that a request or a client may hold.
use goidc.Base.{String}

abbrev pub signature : String
signature = "sig"

abbrev pub encryption : String
encryption = "enc"
