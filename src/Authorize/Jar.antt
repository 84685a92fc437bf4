-- ===== src/Authorize/Jar.antt =====
-- Request objects (internal/authorize/jar.go).
use goidc.Base.{
  ℕ, ◌-◌, String, Bool, true, Option, none, some, List, [], ◌∷◌, is_empty, if◌then◌else◌, ◌!=◌,
  ◌&&◌, not, ltb,
}
use goidc.Authorize.Request.{AuthorizationRequest, Scoped, on_client}
use goidc.Model.Client.{Client}
use goidc.Model.Const.KeyUsage
use goidc.Oidc.Context.{Context}
use goidc.Oidc.Effect.{Error, Outcome, ok, err, panic, base_error, fault, gets, check, ◌>>=◌, ◌>>◌}
use goidc.Oidc.ErrorCode
use goidc.Oidc.Algorithms.{jar_key_encryption_algorithms}
use goidc.Oidc.Keys.{find_private_key, client_public_key}
use goidc.Oidc.Library.{Jwk, Jws, JwsHeader, JwtClaims, Key}
use goidc.Storage.{Fetched, found, failed}
use goidc.Token.Claims.{is_jws, is_jwe}

module _ (ctx : Context) where
  open ctx use {library, now}

  abbrev refused {ℓ} : {A : Type ℓ} → String → Outcome A
  refused message = err (base_error ErrorCode.invalid_request_object message)

  abbrev decrypted : Fetched String → Outcome String
  decrypted (failed message) = refused message
  decrypted (found text) = ok text

  abbrev decrypt_with : (Key → Fetched String) → Option Jwk → Outcome String
  decrypt_with decrypt none = refused "invalid JWK used for encryption"
  decrypt_with decrypt (some key) =
      if key.usage != KeyUsage.encryption
      then refused "invalid JWK used for encryption"
      else decrypted (decrypt key.key)

  abbrev decrypt_parsed : Option (String × (Key → Fetched String)) → Outcome String
  decrypt_parsed none = refused "could not parse the encrypted request object"
  decrypt_parsed (some (key_id, decrypt)) =
      if is_empty key_id
      then refused "invalid JWE key ID"
      else decrypt_with decrypt (find_private_key ctx key_id)

  abbrev decrypt_object : String → Outcome (List String) → Outcome String
  decrypt_object object (ok algorithms) =
      decrypt_parsed
        (library.decrypt_request_object object algorithms ctx.jar_content_encryption_algorithms)
  decrypt_object object (err e) = err e
  decrypt_object object panic = panic
  decrypt_object object goidc.Oidc.Effect.crash = goidc.Oidc.Effect.crash

  -- signedRequestObjectFromEncryptedRequestObject
  unfoldable pub signed_request_object_from_encrypted_request_object : String → Outcome String
  unfolding jar_key_encryption_algorithms find_private_key
  signed_request_object_from_encrypted_request_object object =
      decrypt_object object (jar_key_encryption_algorithms ctx)

  abbrev parsed_or : String → List String → Option Jws → Outcome Jws
  parsed_or object algorithms none = refused (library.parse_signed_error object algorithms)
  parsed_or object algorithms (some token) = ok token

  abbrev key_id_of : List JwsHeader → Outcome String
  key_id_of (h ∷ []) = if is_empty h.key_id then refused "invalid kid header" else ok h.key_id
  key_id_of [] = refused "invalid kid header"
  key_id_of (h ∷ i ∷ hs) = refused "invalid kid header"

  abbrev key_or : Fetched Jwk → Outcome Jwk
  key_or (failed message) = refused message
  key_or (found key) = ok key

  abbrev claims_or : Option JwtClaims → Outcome JwtClaims
  claims_or none = refused "could not extract claims"
  claims_or (some claims) = ok claims

  -- The claim "exp" is missing, or lies too far in the future.
  abbrev expiry_is_invalid : Option ℕ → Bool
  expiry_is_invalid none = true
  expiry_is_invalid (some expiry) = ltb ctx.jar_lifetime_secs (expiry - now)

  abbrev jar_algorithms : Client → List String
  jar_algorithms c =
      if is_empty c.jar_signature_algorithm
      then ctx.jar_signature_algorithms
      else c.jar_signature_algorithm ∷ []

  -- jarFromSignedRequestObject
  unfoldable pub jar_from_signed_request_object : String → Scoped ctx AuthorizationRequest
  unfolding client_public_key on_client
  jar_from_signed_request_object object = do
    held ← gets (λ cs. cs.0)
    let algorithms = jar_algorithms held
    token ← fault (parsed_or object algorithms (library.parse_signed object algorithms))
    key_id ← fault (key_id_of token.headers)
    fetched ← on_client ctx (client_public_key ctx key_id)
    key ← fault (key_or fetched)
    claims ← fault (claims_or (library.verified_claims token key.key))
    check (
        if expiry_is_invalid claims.expiry
        then some (base_error ErrorCode.invalid_request_object "invalid exp claim")
        else none)
    check (
        if library.validate_claims claims
          (record { issuer = held.id; subject = ""; any_audience = ctx.host ∷ [] }) now
        then none
        else some (base_error ErrorCode.invalid_request_object "invalid claims"))
    goidc.Oidc.Effect.pure
        (record { client_id = claims.request_client_id; params = claims.request })

  -- JARFromRequestObject
  unfoldable pub jar_from_request_object : String → Scoped ctx AuthorizationRequest
  unfolding is_jwe is_jws signed_request_object_from_encrypted_request_object
      jar_from_signed_request_object
  jar_from_request_object object = do
    signed ← fault (
        if ctx.jar_encryption_is_enabled && is_jwe ctx object
        then signed_request_object_from_encrypted_request_object object
        else ok object)
    check (
        if not (is_jws ctx signed)
        then some (base_error ErrorCode.invalid_request "the request object is not a JWS")
        else none)
    jar_from_signed_request_object signed
