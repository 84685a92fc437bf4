-- ===== src/Authn/Proven/Certificate.antt =====
-- What a client has shown that authenticated with a certificate (internal/authn/util.go).
use goidc.Base.{
  true, false, Option, none, some, List, [], ◌∷◌, ◌!=◌, ◌≡◌, refl, ap, sym, arith, contains,
  is_empty, if◌then◌else◌, eq-of_!=, eq_iff, inl, inr, Bool-cases, subst,
}
use goidc.Authn.Certificates.{
  matches_certificate, last_matching_jwk, compare_public_keys, checked_jwk, with_jwks,
  with_certificate, subject_is_valid, authenticate_with_self_signed_tls_certificate,
  authenticate_with_tls_certificate,
}
use goidc.Authn.ClientId.{ClientAuthnRequest}
use goidc.Model.Client.{Client}
use goidc.Oidc.Context.{Context, State}
use goidc.Oidc.Effect.{ok}
use goidc.Oidc.Http.{client_certificate}
use goidc.Oidc.Keys.{fetch_public_jwks}
use goidc.Oidc.Library.{Jwk, Certificate}
use goidc.Storage.{Fetched, found, failed}
use goidc.Authn.Proven.Assertion.{unless}

module _ (ctx : Context) (req : ClientAuthnRequest) where
  open ctx use {library, now}

  -- The certificate matches one of the client's keys and has its public key.
  pub record ByCertificate (c d : Client) (s t : State ctx) : Type 0 where
    pub same_id : c.id ≡ req.client_id
    pub cert : Certificate
    pub given : client_certificate ctx ≡ some cert
    pub keys : List Jwk
    pub looked_up : fetch_public_jwks ctx c s ≡ ((found keys, d), t)
    pub jwk : Jwk
    pub chosen : last_matching_jwk ctx cert keys none ≡ some jwk
    pub matches : matches_certificate ctx cert jwk ≡ true
    pub same_key : compare_public_keys ctx jwk.key cert.public_key ≡ true

  -- The certificate has the names that the client registered.
  pub record BySubject (c : Client) : Type 0 where
    pub same_id : c.id ≡ req.client_id
    pub cert : Certificate
    pub given : client_certificate ctx ≡ some cert
    pub same_name :
        is_empty c.tls_subject_distinguished_name ≡ false
        → cert.subject ≡ c.tls_subject_distinguished_name
    pub same_alternative :
        is_empty c.tls_subject_alternative_name ≡ false
        → contains cert.dns_names c.tls_subject_alternative_name ≡ true

  -- A key that the loop returns matches, unless it was kept from before.
  last-matches :
      (cert : Certificate) (keys : List Jwk) (kept : Option Jwk) (jwk : Jwk)
      → ((k : Jwk) → kept ≡ some k → matches_certificate ctx cert k ≡ true)
      → last_matching_jwk ctx cert keys kept ≡ some jwk
      → matches_certificate ctx cert jwk ≡ true
  unfolding last_matching_jwk
  last-matches cert [] kept jwk f h = f jwk h
  last-matches cert (key ∷ keys) kept jwk f h =
      last-matches cert keys (if matches_certificate ctx cert key then some key else kept) jwk
        (λ k e. elim (Bool-cases (matches_certificate ctx cert key)) [
          | inl b ↦
              let same : key ≡ k = ground arith in
              subst (λ x. matches_certificate ctx cert x ≡ true) same b
          | inr b ↦ f k (ground arith)
        ])
        h

  jwk-given :
      (cert : Certificate) (o : Option Jwk) (c d : Client)
      → checked_jwk ctx cert o c ≡ ok d
      → (jwk : Jwk) × (o ≡ some jwk)
        × (compare_public_keys ctx jwk.key cert.public_key ≡ true)
        × (d ≡ c)
  jwk-given cert none c d h = cc
  jwk-given cert (some jwk) c d h = (jwk, refl, ground arith, ground arith)

  keys-given :
      (cert : Certificate) (r : (Fetched (List Jwk) × Client) × State ctx) (d : Client)
      (t : State ctx)
      → with_jwks ctx cert r ≡ (ok d, t)
      → (keys : List Jwk) × (r ≡ ((found keys, d), t))
        × ((jwk : Jwk) × (last_matching_jwk ctx cert keys none ≡ some jwk)
            × (compare_public_keys ctx jwk.key cert.public_key ≡ true))
  keys-given cert ((failed message, c), s) d t h = cc
  keys-given cert ((found keys, c), s) d t h =
      let (jwk, last, same_key, same) =
        jwk-given cert (last_matching_jwk ctx cert keys none) c d (ap (λ x. x.0) h) in
      (keys, (λ i. ((found keys, sym same i), (h i).1)), (jwk, last, same_key))

  certificate-given :
      (c d : Client) (s t : State ctx) (o : Option Certificate)
      → c.id ≡ req.client_id
      → client_certificate ctx ≡ o
      → with_certificate ctx o c s ≡ (ok d, t)
      → ByCertificate c d s t
  certificate-given c d s t none named e h = cc
  certificate-given c d s t (some cert) named e h =
      let (keys, looked, proof) = keys-given cert (fetch_public_jwks ctx c s) d t h in
      let (jwk, last, same_key) = proof in
      record {
        same_id = named;
        cert = cert;
        given = e;
        keys = keys;
        looked_up = looked;
        jwk = jwk;
        chosen = last;
        matches = last-matches cert keys none jwk (λ k e. absurd cc) last;
        same_key = same_key;
      }

  pub certificate-ByCertificate :
      (c d : Client) (s t : State ctx)
      → authenticate_with_self_signed_tls_certificate ctx c req s ≡ (ok d, t)
      → ByCertificate c d s t
  unfolding authenticate_with_self_signed_tls_certificate
  certificate-ByCertificate c d s t h =
      unless ctx req (c.id != req.client_id) _ _ (ok d, t) (λ k. absurd cc)
        (λ named k. certificate-given c d s t (client_certificate ctx) (eq-of_!= _ _ named) refl k)
        h

  subject-given :
      (c : Client) (o : Option Certificate)
      → subject_is_valid ctx c o ≡ none
      → (cert : Certificate) × (o ≡ some cert)
        × (is_empty c.tls_subject_distinguished_name ≡ false
            → cert.subject ≡ c.tls_subject_distinguished_name)
        × (is_empty c.tls_subject_alternative_name ≡ false
            → contains cert.dns_names c.tls_subject_alternative_name ≡ true)
  subject-given c none h = cc
  subject-given c (some cert) h = (
    cert,
    refl,
    λ e. ground (arith, eq_iff cert.subject c.tls_subject_distinguished_name),
    λ e. ground arith,
  )

  pub subject-BySubject :
      (c : Client) → authenticate_with_tls_certificate ctx c req ≡ none → BySubject c
  unfolding authenticate_with_tls_certificate
  subject-BySubject c h =
      unless ctx req (c.id != req.client_id) _ _ none (λ k. absurd cc)
        (λ named k.
          let (cert, given, name, alternative) = subject-given c (client_certificate ctx) k in
          record {
            same_id = eq-of_!= _ _ named;
            cert = cert;
            given = given;
            same_name = name;
            same_alternative = alternative;
          })
        h
