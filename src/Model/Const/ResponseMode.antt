-- ===== src/Model/Const/ResponseMode.antt =====
-- The response modes and their three tests of pkg/goidc/const.go, texts that a request or a client may hold.
use goidc.Base.{String, Bool, ◌||◌, ◌==◌}

abbrev pub query : String
query = "query"

abbrev pub fragment : String
fragment = "fragment"

abbrev pub form_post : String
form_post = "form_post"

abbrev pub query_jwt : String
query_jwt = "query.jwt"

abbrev pub fragment_jwt : String
fragment_jwt = "fragment.jwt"

abbrev pub form_post_jwt : String
form_post_jwt = "form_post.jwt"

abbrev pub jwt : String
jwt = "jwt"

unfoldable pub is_jarm : String → Bool
is_jarm rm = rm == query_jwt || rm == fragment_jwt || rm == form_post_jwt || rm == jwt

unfoldable pub is_plain : String → Bool
is_plain rm = rm == query || rm == fragment || rm == form_post

unfoldable pub is_query : String → Bool
is_query rm = rm == query || rm == query_jwt
