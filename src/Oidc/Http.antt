-- ===== src/Oidc/Http.antt =====
-- What the context reads of the request (internal/oidc/context.go).
use goidc.Base.{
  String, ◌<>◌, Option, none, some, List, [], ◌∷◌, ◌++◌, is_empty, if◌then◌else◌, ◌==◌,
}
use goidc.Base.Dict.{lookup}
use goidc.Base.Text.{split}
use goidc.Model.Const.TokenType
use goidc.Oidc.Context.{Context}
use goidc.Oidc.Library.{Certificate}

module _ (ctx : Context) where
  open ctx use {library, request}

  -- More than one value of the DPoP header, or none, is no DPoP header.
  abbrev only : Option (List String) → Option String
  only (some (v ∷ [])) = some v
  only vs = none

  -- Context.DPoPJWT
  unfoldable pub dpop_jwt : Option String
  unfolding lookup
  dpop_jwt = only (lookup (library.canonical_header_key "DPoP") request.headers)

  abbrev first_value : Option (List String) → String
  first_value (some (v ∷ vs)) = v
  first_value vs = ""

  -- Context.Header, by the `Get` of net/http
  unfoldable pub header : String → Option String
  unfolding lookup
  header name =
      let value = first_value (lookup (library.canonical_header_key name) request.headers) in
      if is_empty value then none else some value

  abbrev or_none {ℓ κ} : {A : Type ℓ} {B : Type κ} → Option A → (A → Option B) → Option B
  or_none none k = none
  or_none (some a) k = k a

  -- Context.ClientCertificate
  unfoldable pub client_certificate : Option Certificate
  unfolding header
  client_certificate = or_none (header "X-Client-Cert") λ raw.
      or_none (library.query_unescape raw)
        λ decoded. or_none (library.pem_decode decoded) λ pem. library.parse_certificate pem

  abbrev token_parts : List String → Option (String × String)
  token_parts (type ∷ token ∷ []) = some (token, type)
  token_parts parts = none

  -- Context.AuthorizationToken: the token and its type.
  unfoldable pub authorization_token : Option (String × String)
  unfolding header split
  authorization_token = or_none (header "Authorization") λ value. token_parts (split value)

  abbrev bearer_or_empty : Option (String × String) → String
  bearer_or_empty none = ""
  bearer_or_empty (some (token, type)) = if type == TokenType.bearer then token else ""

  -- Context.BearerToken
  unfoldable pub bearer_token : String
  unfolding authorization_token
  bearer_token = bearer_or_empty authorization_token

  -- Context.Audiences
  unfoldable pub audiences : List String
  audiences =
      let own = ctx.host ∷ (ctx.host <> request.request_uri) ∷ [] in
      if ctx.mtls_is_enabled
      then own ++ ctx.mtls_host ∷ (ctx.mtls_host <> request.request_uri) ∷ []
      else own
