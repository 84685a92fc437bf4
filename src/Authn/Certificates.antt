-- ===== src/Authn/Certificates.antt =====
-- self_signed_tls_client_auth and tls_client_auth (internal/authn/util.go).
use goidc.Base.{
  String, Bool, false, Option, none, some, List, [], ◌∷◌, is_empty, if◌then◌else◌, ◌==◌, ◌!=◌, ◌&&◌,
  ◌||◌, not, contains,
}
use goidc.Authn.ClientId.{ClientAuthnRequest}
use goidc.Model.Client.{Client}
use goidc.Oidc.Context.{Context, State, Run}
use goidc.Oidc.Effect.{Error, Outcome, ok, err, base_error}
use goidc.Oidc.ErrorCode
use goidc.Oidc.Http.{client_certificate}
use goidc.Oidc.Keys.{fetch_public_jwks}
use goidc.Oidc.Library.{Jwk, Certificate, Key, ed25519, ecdsa, rsa}
use goidc.Storage.{Fetched, found, failed}

abbrev refusal : String → Error
refusal message = base_error ErrorCode.invalid_client message

module _ (ctx : Context) where
  open ctx use {library}

  -- comparePublicKeys, for a second key that is a public key
  unfoldable pub compare_public_keys : Key → Key → Bool
  compare_public_keys (ed25519 k) key2 = library.keys_equal (ed25519 k) key2
  compare_public_keys (ecdsa k) key2 = library.keys_equal (ecdsa k) key2
  compare_public_keys (rsa k) key2 = library.keys_equal (rsa k) key2
  compare_public_keys key1 key2 = false

  abbrev pub matches_certificate : Certificate → Jwk → Bool
  matches_certificate cert key =
      (key.certificate_thumbprint_sha256 == library.sha256 cert.raw)
      || (key.certificate_thumbprint_sha1 == library.sha1 cert.raw)

  -- The loop over the keys, which keeps the last one that matches.
  unfoldable pub last_matching_jwk : Certificate → List Jwk → Option Jwk → Option Jwk
  last_matching_jwk cert [] kept = kept
  last_matching_jwk cert (key ∷ keys) kept =
      last_matching_jwk cert keys (if matches_certificate cert key then some key else kept)

  abbrev pub checked_jwk : Certificate → Option Jwk → Client → Outcome Client
  checked_jwk cert none c = err (refusal "could not find a JWK matching the client certificate")
  checked_jwk cert (some jwk) c =
      if compare_public_keys jwk.key cert.public_key
      then ok c
      else err (refusal "the public key in the client certificate and ")

  abbrev pub with_jwks :
      Certificate → (Fetched (List Jwk) × Client) × State ctx → Outcome Client × State ctx
  with_jwks cert ((failed message, c), s) =
      (err (base_error ErrorCode.internal_error "could not load the client JWKS"), s)
  with_jwks cert ((found keys, c), s) = (checked_jwk cert (last_matching_jwk cert keys none) c, s)

  abbrev pub with_certificate : Option Certificate → Client → Run ctx Client
  with_certificate none c s = (err (refusal "client certificate not informed"), s)
  with_certificate (some cert) c s = with_jwks cert (fetch_public_jwks ctx c s)

  unfoldable pub authenticate_with_self_signed_tls_certificate :
      Client → ClientAuthnRequest → Run ctx Client
  unfolding client_certificate fetch_public_jwks last_matching_jwk compare_public_keys
  authenticate_with_self_signed_tls_certificate c req s =
      if c.id != req.client_id
      then (err (refusal "invalid client"), s)
      else with_certificate (client_certificate ctx) c s

  abbrev pub subject_is_valid : Client → Option Certificate → Option Error
  subject_is_valid c none = some (refusal "client certificate not informed")
  subject_is_valid c (some cert) =
      if not (is_empty c.tls_subject_distinguished_name)
        && (cert.subject != c.tls_subject_distinguished_name)
      then some (refusal "invalid distinguished name")
      else if not (is_empty c.tls_subject_alternative_name)
          && not (contains cert.dns_names c.tls_subject_alternative_name)
      then some (refusal "invalid alternative name")
      else none

  unfoldable pub authenticate_with_tls_certificate : Client → ClientAuthnRequest → Option Error
  unfolding client_certificate
  authenticate_with_tls_certificate c req =
      if c.id != req.client_id
      then some (refusal "invalid client")
      else subject_is_valid c (client_certificate ctx)
