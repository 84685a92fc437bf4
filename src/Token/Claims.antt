-- ===== src/Token/Claims.antt =====
-- The access tokens that are presented to the server, and the token endpoint (internal/token/token.go).
use goidc.Base.{
  String, Bool, Option, none, some, List, [], ◌∷◌, is_empty, if◌then◌else◌, ◌!=◌, ◌==◌,
}
use goidc.Base.Dict.{lookup}
use goidc.Model.Const.GrantType
use goidc.Model.Const.KeyUsage
use goidc.Model.Value.{Claims, Value}
use goidc.Oidc.Context.{Context, Run}
use goidc.Oidc.Effect.{Outcome, ok, err, panic, crash, base_error, raise}
use goidc.Oidc.ErrorCode
use goidc.Oidc.Keys.{public_key, signature_algorithms}
use goidc.Oidc.Library.{Jwk, Jws, JwsHeader, JwtClaims}
use goidc.Token.AuthzCode.{handle_authorization_code_grant_token_creation}
use goidc.Token.ClientCredentials.{handle_client_credentials_grant_token_creation}
use goidc.Token.Model.{TokenRequest, TokenResponse}
use goidc.Token.RefreshToken.{handle_refresh_token_grant_token_creation}

module _ (ctx : Context) where
  open ctx use {library, now}

  -- IsJWS and IsJWE
  unfoldable pub is_jws : String → Bool
  is_jws token = library.match_string "(^[\\w-]*\\.[\\w-]*\\.[\\w-]*$)" token

  unfoldable pub is_jwe : String → Bool
  is_jwe token = library.match_string "(^[\\w-]*\\.[\\w-]*\\.[\\w-]*\\.[\\w-]*\\.[\\w-]*$)" token

  abbrev invalid_token {ℓ} : {A : Type ℓ} → Outcome A
  invalid_token = err (base_error ErrorCode.access_denied "invalid token")

  abbrev validated_claims : Option JwtClaims → Outcome Claims
  validated_claims none = invalid_token
  validated_claims (some claims) =
      if library.validate_claims claims
        (record { issuer = ctx.host; subject = ""; any_audience = [] }) now
      then ok claims.raw
      else invalid_token

  abbrev claims_by_key : Jws → Option Jwk → Outcome Claims
  claims_by_key token none = invalid_token
  claims_by_key token (some key) =
      if key.usage != KeyUsage.signature
      then invalid_token
      else validated_claims (library.verified_claims token key.key)

  abbrev claims_by_headers : Jws → List JwsHeader → Outcome Claims
  claims_by_headers token (h ∷ []) =
      if is_empty h.key_id
      then err (base_error ErrorCode.invalid_request "invalid header kid")
      else claims_by_key token (public_key ctx h.key_id)
  claims_by_headers token [] = err (base_error ErrorCode.invalid_request "invalid header kid")
  claims_by_headers token (h ∷ i ∷ hs) =
      err (base_error ErrorCode.invalid_request "invalid header kid")

  abbrev claims_of_parsed : Option Jws → Outcome Claims
  claims_of_parsed none = err (base_error ErrorCode.invalid_request "could not parse the token")
  claims_of_parsed (some token) = claims_by_headers token token.headers

  -- ValidClaims
  unfoldable pub valid_claims : String → Outcome Claims
  unfolding public_key signature_algorithms
  valid_claims token = claims_of_parsed (library.parse_signed token (signature_algorithms ctx))

  -- A claim "jti" that is no text panics in the type assertion.
  abbrev id_of_claim : Option Value → Outcome String
  id_of_claim none = invalid_token
  id_of_claim (some (Value.text id)) = ok id
  id_of_claim (some _) = panic

  abbrev id_of_claims : Outcome Claims → Outcome String
  id_of_claims (ok claims) = id_of_claim (lookup "jti" claims)
  id_of_claims (err e) = err e
  id_of_claims panic = panic
  id_of_claims crash = crash

  -- TokenID
  unfoldable pub token_id : String → Outcome String
  unfolding is_jws valid_claims
  token_id token = if is_jws token then id_of_claims (valid_claims token) else ok token

  -- HandleTokenCreation
  unfoldable pub handle_token_creation : TokenRequest → Run ctx TokenResponse
  handle_token_creation req =
      if req.grant_type == GrantType.client_credentials
      then handle_client_credentials_grant_token_creation ctx req
      else if req.grant_type == GrantType.authorization_code
      then handle_authorization_code_grant_token_creation ctx req
      else if req.grant_type == GrantType.refresh_token
      then handle_refresh_token_grant_token_creation ctx req
      else raise (base_error ErrorCode.unsupported_grant_type "unsupported grant type")
