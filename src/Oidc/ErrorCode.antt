-- ===== src/Oidc/ErrorCode.antt =====
-- The error codes of internal/oidc/error.go, and the HTTP status of each.
use goidc.Base.{ℕ, String, ◌==◌, ◌||◌, if◌then◌else◌}

abbrev pub access_denied : String
access_denied = "access_denied"

abbrev pub invalid_client : String
invalid_client = "invalid_client"

abbrev pub invalid_grant : String
invalid_grant = "invalid_grant"

abbrev pub invalid_request : String
invalid_request = "invalid_request"

abbrev pub unauthorized_client : String
unauthorized_client = "unauthorized_client"

abbrev pub invalid_scope : String
invalid_scope = "invalid_scope"

abbrev pub unsupported_grant_type : String
unsupported_grant_type = "unsupported_grant_type"

abbrev pub invalid_request_object : String
invalid_request_object = "invalid_request_object"

abbrev pub invalid_token : String
invalid_token = "invalid_token"

abbrev pub internal_error : String
internal_error = "internal_error"

unfoldable pub status_code : String → ℕ
status_code ec =
    if ec == access_denied
    then 403
    else if ec == invalid_client || ec == invalid_token || ec == unauthorized_client
    then 401
    else if ec == internal_error
    then 500
    else 400
