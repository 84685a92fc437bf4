-- ===== src/Token/IdToken.antt =====
-- MakeIDToken, EncryptJWT and halfHashIDTokenClaim of internal/token/make.go.
use goidc.Base.{◌+◌, String, [], ◌∷◌, is_empty, if◌then◌else◌, contains}
use goidc.Base.Dict.{insert, copy}
use goidc.Model.Client.{Client}
use goidc.Model.Value.{Claims, Value}
use goidc.Oidc.Context.{Context, State, Run}
use goidc.Oidc.Effect.{
  Error, Outcome, ok, err, panic, crash, base_error, pure, raise, fault, gets, ◌>>=◌, ◌>>◌,
}
use goidc.Oidc.ErrorCode
use goidc.Oidc.Keys.{id_token_signature_key, encryption_jwk}
use goidc.Oidc.Library.{Jwk}
use goidc.Storage.{Fetched, found, failed}
use goidc.Token.Make.{value_or_internal_error, or_panic}
use goidc.Token.Model.{IdTokenOptions}

module _ (ctx : Context) where
  open ctx use {library, now}

  -- halfHashIDTokenClaim: an algorithm that is not listed leaves a nil hash, and panics.
  unfoldable pub half_hash_id_token_claim : String → String → Outcome String
  half_hash_id_token_claim value algorithm =
      if contains ("RS256" ∷ "ES256" ∷ "PS256" ∷ "HS256" ∷ []) algorithm
      then ok (library.base64_url (library.first_half (library.sha256 value)))
      else if contains ("RS384" ∷ "ES384" ∷ "PS384" ∷ "HS384" ∷ []) algorithm
      then ok (library.base64_url (library.first_half (library.sha384 value)))
      else if contains ("RS512" ∷ "ES512" ∷ "PS512" ∷ "HS512" ∷ []) algorithm
      then ok (library.base64_url (library.first_half (library.sha512 value)))
      else panic

  abbrev put_hash : String → Claims → Outcome String → Outcome Claims
  put_hash name claims (ok hash) = ok (insert name (Value.text hash) claims)
  put_hash name claims (err e) = err e
  put_hash name claims panic = panic
  put_hash name claims crash = crash

  -- One of the three hashes, for a value that is not empty.
  unfoldable pub add_hash : String → String → String → Claims → Outcome Claims
  unfolding half_hash_id_token_claim insert
  add_hash name value algorithm claims =
      if is_empty value
      then ok claims
      else put_hash name claims (half_hash_id_token_claim value algorithm)

  -- makeIDToken
  unfoldable pub make_signed_id_token : Client → IdTokenOptions → Run ctx String
  unfolding id_token_signature_key add_hash copy
  make_signed_id_token c o = do
    key ← fault (or_panic (id_token_signature_key ctx c))
    with_token ← fault (
        add_hash "at_hash" o.access_token key.algorithm (
          ("iss", Value.text ctx.host)
          ∷ ("sub", Value.text o.subject)
          ∷ ("aud", Value.text c.id)
          ∷ ("iat", Value.number now)
          ∷ ("exp", Value.number (now + ctx.id_token_expires_in_secs))
          ∷ []))
    with_code ← fault (add_hash "c_hash" o.authorization_code key.algorithm with_token)
    with_state ← fault (add_hash "s_hash" o.state key.algorithm with_code)
    fault (
        value_or_internal_error
          (library.sign_claims key "jwt" (copy o.additional_id_token_claims with_state)))

  -- EncryptJWT
  unfoldable pub encrypt_jwt : String → Jwk → String → Outcome String
  encrypt_jwt jwt_string jwk content_algorithm =
      value_or_internal_error (library.encrypt jwk content_algorithm jwt_string)

  abbrev as_invalid_request : Outcome String → Outcome String
  as_invalid_request (err e) =
      err (base_error ErrorCode.invalid_request (goidc.Oidc.Effect.description e))
  as_invalid_request r = r

  abbrev paired {ℓ} : {A B : Type ℓ} → B → Outcome A → Outcome (A × B)
  paired b (ok a) = ok (a, b)
  paired b (err e) = err e
  paired b panic = panic
  paired b crash = crash

  abbrev encrypt_for :
      String → String → (Fetched Jwk × Client) × State ctx → Outcome (String × Client) × State ctx
  encrypt_for text content_algorithm ((failed message, c), s) =
      (err (base_error ErrorCode.invalid_request message), s)
  encrypt_for text content_algorithm ((found jwk, c), s) =
      (paired c (as_invalid_request (encrypt_jwt text jwk content_algorithm)), s)

  -- encryptIDToken and encryptJARMResponse, which differ in the client's algorithms that they take.
  unfoldable pub encrypt_for_client : String → String → Client → String → Run ctx (String × Client)
  unfolding encryption_jwk encrypt_jwt
  encrypt_for_client key_algorithm content_algorithm c text s =
      encrypt_for text content_algorithm (encryption_jwk ctx key_algorithm c s)

  -- MakeIDToken: the token, and the client, whose keys it may have cached.
  unfoldable pub make_id_token : Client → IdTokenOptions → Run ctx (String × Client)
  unfolding make_signed_id_token encrypt_for_client
  make_id_token c o = do
    id_token ← make_signed_id_token c o
    if is_empty c.id_token_key_encryption_algorithm
        then pure (id_token, c)
        else encrypt_for_client c.id_token_key_encryption_algorithm
            c.id_token_content_encryption_algorithm c id_token
