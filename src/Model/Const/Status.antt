-- ===== src/Model/Const/Status.antt =====
-- The statuses of an authentication policy of pkg/goidc/const.go, texts that a request or a client may hold.
use goidc.Base.{String}

abbrev pub success : String
success = "success"

abbrev pub in_progress : String
in_progress = "in_progress"

abbrev pub failure : String
failure = "failure"
