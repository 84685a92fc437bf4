-- ===== src/Model/Const/Claim.antt =====
-- The names of claims of pkg/goidc/const.go.
use goidc.Base.{String}

abbrev pub subject : String
subject = "sub"

abbrev pub client_id : String
client_id = "client_id"

abbrev pub expiry : String
expiry = "exp"

abbrev pub scope : String
scope = "scope"

abbrev pub authentication_time : String
authentication_time = "auth_time"

abbrev pub authentication_method_references : String
authentication_method_references = "amr"

abbrev pub authentication_context_reference : String
authentication_context_reference = "acr"

abbrev pub authorization_details : String
authorization_details = "authorization_details"
