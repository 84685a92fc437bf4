-- ===== src/Model/Const/ResponseType.antt =====
-- The response types and their two tests of pkg/goidc/const.go, texts that a request or a client may hold.
use goidc.Base.{String, Bool, ◌||◌, contains}
use goidc.Base.Text.{split}

abbrev pub code : String
code = "code"

abbrev pub id_token : String
id_token = "id_token"

abbrev pub token : String
token = "token"

abbrev pub code_and_id_token : String
code_and_id_token = "code id_token"

abbrev pub code_and_token : String
code_and_token = "code token"

abbrev pub id_token_and_token : String
id_token_and_token = "id_token token"

abbrev pub code_and_id_token_and_token : String
code_and_id_token_and_token = "code id_token token"

-- ResponseType.Contains
unfoldable pub has : String → String → Bool
has rt response_type = contains (split rt) response_type

unfoldable pub is_implicit : String → Bool
unfolding has
is_implicit rt = has rt id_token || has rt token
