-- ===== src/Model/Const/ClaimType.antt =====
-- The claim types of pkg/goidc/const.go.
use goidc.Base.{String}

abbrev pub normal : String
normal = "normal"

abbrev pub aggregated : String
aggregated = "aggregated"

abbrev pub distributed : String
distributed = "distributed"
