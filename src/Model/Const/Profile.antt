-- ===== src/Model/Const/Profile.antt =====
-- The profiles of pkg/goidc/const.go, texts that a request or a client may hold.
use goidc.Base.{String}

abbrev pub open_id : String
open_id = "oidc_profile"

abbrev pub fapi2 : String
fapi2 = "fapi2_profile"
