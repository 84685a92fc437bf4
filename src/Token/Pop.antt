-- ===== src/Token/Pop.antt =====
-- Proof of possession: DPoP proofs and TLS client certificates (internal/token/pop.go, and
-- jwkThumbprint and hashBase64URLSHA256 of make.go).
pub mod Valid
use goidc.Base.{
  ℕ, ◌-◌, String, Bool, Option, none, some, List, [], ◌∷◌, is_empty, if◌then◌else◌, ◌==◌, ◌!=◌,
  ◌&&◌, not, contains, ltb,
}
use goidc.Model.Const.TokenType
use goidc.Oidc.Context.{Context}
use goidc.Oidc.Effect.{Verdict, ok, err, panic, base_error}
use goidc.Oidc.ErrorCode
use goidc.Oidc.Http.{dpop_jwt, client_certificate, audiences}
use goidc.Oidc.Library.{Certificate, Jwk, Jws, JwsHeader, JwtClaims}
use goidc.Token.Model.{DpopOptions, Confirmation}

abbrev pub invalid : String → Verdict
invalid message = err (base_error ErrorCode.invalid_request message)

abbrev pub thumbprint_of : (Jwk → String) → Option Jws → Option String
thumbprint_of thumbprint none = none
thumbprint_of thumbprint (some parsed) = header_thumbprint parsed.headers
  where
    jwk_of : Option Jwk → Option String
    jwk_of none = none
    jwk_of (some jwk) = some (thumbprint jwk)

    header_thumbprint : List JwsHeader → Option String
    header_thumbprint [] = none
    header_thumbprint (h ∷ hs) = jwk_of h.jwk

module _ (ctx : Context) where
  open ctx use {library, request, now}

  unfoldable pub hash_base64_url_sha256 : String → String
  hash_base64_url_sha256 s = library.base64_url (library.sha256 s)

  -- jwkThumbprint: `none` is a panic, by a proof that does not parse or that has no key.
  unfoldable pub jwk_thumbprint : String → Option String
  jwk_thumbprint dpop =
      thumbprint_of (λ jwk. library.base64_url (library.jwk_thumbprint jwk))
        (library.parse_signed dpop ctx.dpop_signature_algorithms)

  abbrev pub confirm_jkt : String → Option String → Verdict → Verdict
  confirm_jkt expected none rest = panic
  confirm_jkt expected (some jkt) rest =
      if jkt != expected then invalid "invalid jwk thumbprint" else rest

  -- The last three tests on the claims of a proof.
  abbrev pub validate_proof_claims : String → DpopOptions → JwtClaims → Verdict
  validate_proof_claims dpop expected claims =
      let valid =
        if library.validate_claims claims (record { issuer = ""; subject = ""; any_audience = [] })
          now
        then ok tt
        else invalid "invalid dpop" in
      if not (is_empty expected.access_token)
        && (claims.ath != hash_base64_url_sha256 expected.access_token)
      then invalid "invalid ath claim"
      else if is_empty expected.jwk_thumbprint
      then valid
      else confirm_jkt expected.jwk_thumbprint (jwk_thumbprint dpop) valid

  abbrev pub validate_htu : String → DpopOptions → JwtClaims → Option String → Verdict
  validate_htu dpop expected claims none = invalid "invalid htu claim"
  validate_htu dpop expected claims (some http_uri) =
      if not (contains (audiences ctx) http_uri)
      then invalid "invalid htu claim"
      else validate_proof_claims dpop expected claims

  -- "iat" is present and not too far in the past; one in the future is not in the past.
  abbrev pub is_too_old : Option ℕ → Bool
  is_too_old none = goidc.Base.true
  is_too_old (some iat) = ltb ctx.dpop_lifetime_secs (now - iat)

  unfoldable pub validate_dpop_claims : String → DpopOptions → JwtClaims → Verdict
  unfolding audiences jwk_thumbprint hash_base64_url_sha256
  validate_dpop_claims dpop expected claims =
      if is_too_old claims.issued_at
      then err (base_error ErrorCode.unauthorized_client "invalid dpop")
      else if is_empty claims.id
      then invalid "invalid jti claim"
      else if claims.htm != request.method
      then invalid "invalid htm claim"
      else validate_htu dpop expected claims
          (library.url_without_params (library.to_lower claims.htu))

  abbrev pub with_claims : String → DpopOptions → Option JwtClaims → Verdict
  with_claims dpop expected none = invalid "invalid dpop"
  with_claims dpop expected (some claims) = validate_dpop_claims dpop expected claims

  abbrev pub with_jwk : String → DpopOptions → Jws → Option Jwk → Verdict
  with_jwk dpop expected parsed none = invalid "invalid jwk header"
  with_jwk dpop expected parsed (some jwk) =
      if library.jwk_valid jwk && library.jwk_is_public jwk
      then with_claims dpop expected (library.verified_claims parsed jwk.key)
      else invalid "invalid jwk header"

  abbrev pub with_headers : String → DpopOptions → Jws → List JwsHeader → Verdict
  with_headers dpop expected parsed (h ∷ []) =
      if h.typ != "dpop+jwt"
      then invalid "invalid typ header. it should be dpop+jwt"
      else with_jwk dpop expected parsed h.jwk
  with_headers dpop expected parsed hs = invalid "invalid dpop"

  abbrev pub with_parsed : String → DpopOptions → Option Jws → Verdict
  with_parsed dpop expected none = invalid "invalid dpop"
  with_parsed dpop expected (some parsed) = with_headers dpop expected parsed parsed.headers

  -- ValidateDPoPJWT
  unfoldable pub validate_dpop_jwt : String → DpopOptions → Verdict
  unfolding validate_dpop_claims
  validate_dpop_jwt dpop expected =
      with_parsed dpop expected (library.parse_signed dpop ctx.dpop_signature_algorithms)

  abbrev with_dpop_header : String → Confirmation → Option String → Verdict
  with_dpop_header token confirmation none =
      err (base_error ErrorCode.unauthorized_client "invalid DPoP header")
  with_dpop_header token confirmation (some dpop) =
      validate_dpop_jwt dpop
        (record { access_token = token; jwk_thumbprint = confirmation.jwk_thumbprint })

  unfoldable pub validate_dpop : String → String → Confirmation → Verdict
  unfolding dpop_jwt validate_dpop_jwt
  validate_dpop token token_type confirmation =
      if is_empty confirmation.jwk_thumbprint
      then (if token_type == TokenType.dpop then invalid "invalid token type" else ok tt)
      else with_dpop_header token confirmation (dpop_jwt ctx)

  abbrev with_client_certificate : Confirmation → Option Certificate → Verdict
  with_client_certificate confirmation none =
      err (base_error ErrorCode.invalid_token "the client certificate is required")
  with_client_certificate confirmation (some cert) =
      if confirmation.client_certificate_thumbprint != hash_base64_url_sha256 cert.raw
      then err (base_error ErrorCode.invalid_token "invalid client certificate")
      else ok tt

  unfoldable pub validate_tls_pop : Confirmation → Verdict
  unfolding client_certificate hash_base64_url_sha256
  validate_tls_pop confirmation =
      if is_empty confirmation.client_certificate_thumbprint
      then ok tt
      else with_client_certificate confirmation (client_certificate ctx)

  abbrev then_validate : Verdict → Verdict → Verdict
  then_validate (ok u) rest = rest
  then_validate r rest = r

  -- ValidatePoP
  unfoldable pub validate_pop : String → String → Confirmation → Verdict
  unfolding validate_dpop validate_tls_pop
  validate_pop token token_type confirmation =
      then_validate (validate_dpop token token_type confirmation) (validate_tls_pop confirmation)
