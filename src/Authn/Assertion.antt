-- ===== src/Authn/Assertion.antt =====
-- private_key_jwt and client_secret_jwt (internal/authn/util.go).
use goidc.Base.{
  ℕ, ◌-◌, String, Bool, Option, none, some, List, [], ◌∷◌, is_empty, if◌then◌else◌, ◌==◌, ◌!=◌, ltb,
}
use goidc.Authn.ClientId.{ClientAuthnRequest}
use goidc.Model.Client.{Client}
use goidc.Model.Const.{assertion_type_jwt_bearer}
use goidc.Oidc.Context.{Context, State, Run}
use goidc.Oidc.Effect.{Error, Outcome, ok, err, base_error}
use goidc.Oidc.ErrorCode
use goidc.Oidc.Http.{audiences}
use goidc.Oidc.Keys.{client_public_key}
use goidc.Oidc.Library.{Jwk, Jws, JwsHeader, JwtClaims, bytes}
use goidc.Storage.{Fetched, found, failed}

abbrev refused : String → Option Error
refused message = some (base_error ErrorCode.invalid_client message)

module _ (ctx : Context) where
  open ctx use {library, now}

  -- The lifetime from "iat" to "exp"; one that would be negative is below every maximum.
  abbrev pub lifetime_is_too_long : JwtClaims → ℕ → Bool
  lifetime_is_too_long claims max_lifetime_secs = elim (claims.expiry) [
    | none ↦ goidc.Base.true
    | some exp ↦ elim (claims.issued_at) [
      | none ↦ goidc.Base.true
      | some iat ↦ ltb max_lifetime_secs (exp - iat)
    ]
  ]

  unfoldable pub are_assertion_claims_valid : Client → JwtClaims → ℕ → Option Error
  unfolding audiences
  are_assertion_claims_valid c claims max_lifetime_secs =
      if lifetime_is_too_long claims max_lifetime_secs
      then refused "invalid time claim in the assertion"
      else if library.validate_claims claims
          (record { issuer = c.id; subject = c.id; any_audience = audiences ctx }) now
      then none
      else refused "invalid assertion"

  abbrev pub algorithms_or : String → List String → List String
  algorithms_or algorithm algorithms = if is_empty algorithm then algorithms else algorithm ∷ []

  abbrev pub checked_claims : Client → ℕ → String → Option JwtClaims → Option Error
  checked_claims c max_lifetime_secs message none = refused message
  checked_claims c max_lifetime_secs message (some claims) =
      are_assertion_claims_valid c claims max_lifetime_secs

  abbrev pub as_outcome : Option Error → Client → Outcome Client
  as_outcome none c = ok c
  as_outcome (some e) c = err e

  -- The end of the method, once the key was looked up; the look-up may have changed the client.
  abbrev pub with_key : Jws → (Fetched Jwk × Client) × State ctx → Outcome Client × State ctx
  with_key assertion ((failed message, c), s) =
      (err (base_error ErrorCode.invalid_client message), s)
  with_key assertion ((found jwk, c), s) = (
    as_outcome
        (checked_claims c ctx.private_key_jwt_assertion_lifetime_secs "invalid assertion signature"
          (library.verified_claims assertion jwk.key))
        c,
    s,
  )

  abbrev pub with_headers : Jws → List JwsHeader → Client → Run ctx Client
  with_headers assertion (h ∷ []) c s =
      if is_empty h.key_id
      then (err (base_error ErrorCode.invalid_client "invalid kid header in the assertion"), s)
      else with_key assertion (client_public_key ctx h.key_id c s)
  with_headers assertion hs c s =
      (err (base_error ErrorCode.invalid_client "invalid kid header in the assertion"), s)

  abbrev pub with_assertion : Option Jws → Client → Run ctx Client
  with_assertion none c s =
      (err (base_error ErrorCode.invalid_client "invalid assertion signature"), s)
  with_assertion (some assertion) c s = with_headers assertion assertion.headers c s

  unfoldable pub authenticate_with_private_key_jwt : Client → ClientAuthnRequest → Run ctx Client
  unfolding are_assertion_claims_valid client_public_key
  authenticate_with_private_key_jwt c req s =
      if req.client_assertion_type != assertion_type_jwt_bearer
      then (err (base_error ErrorCode.invalid_request "invalid assertion_type"), s)
      else with_assertion
          (library.parse_signed req.client_assertion
            (algorithms_or c.authn_signature_algorithm ctx.private_key_jwt_signature_algorithms))
          c s

  abbrev pub claims_by_secret : Client → Option Jws → Option Error
  claims_by_secret c none = refused "invalid assertion"
  claims_by_secret c (some assertion) =
      checked_claims c ctx.client_secret_jwt_assertion_lifetime_secs "invalid assertion"
        (library.verified_claims assertion (bytes c.secret))

  unfoldable pub authenticate_with_client_secret_jwt : Client → ClientAuthnRequest → Option Error
  unfolding are_assertion_claims_valid
  authenticate_with_client_secret_jwt c req =
      if req.client_assertion_type != assertion_type_jwt_bearer
      then some (base_error ErrorCode.invalid_request "invalid assertion_type")
      else claims_by_secret c (
          library.parse_signed req.client_assertion
            (algorithms_or c.authn_signature_algorithm ctx.client_secret_jwt_signature_algorithms))
