-- ===== src/Token/Pop/Valid.antt =====
-- What a DPoP proof that is valid shows (ValidateDPoPJWT of internal/token/pop.go), where no access
-- token and no key are expected of it.
use goidc.Base.{
  String, Bool, true, false, Option, none, some, List, [], ◌∷◌, ◌≡◌, refl, arith, contains,
  is_empty, if◌then◌else◌, ◌!=◌, ◌&&◌, eq-of_!=,
}
use goidc.Oidc.Context.{Context}
use goidc.Oidc.Effect.{Verdict, ok, err}
use goidc.Oidc.Http.{audiences}
use goidc.Oidc.Library.{Jwk, Jws, JwsHeader, JwtClaims}
use goidc.Token.Model.{DpopOptions}
use goidc.Token.Pop.{
  is_too_old, validate_htu, validate_dpop_claims, with_claims, with_jwk, with_headers, with_parsed,
  validate_dpop_jwt,
}

abbrev pub nothing_expected : DpopOptions
nothing_expected = record { access_token = ""; jwk_thumbprint = "" }

module _ (ctx : Context) where
  open ctx use {library, request, now}

  -- The claims of a proof are those of this request, and the proof is recent.
  pub record IsOfRequest (claims : JwtClaims) : Type 0 where
    pub recent : is_too_old ctx claims.issued_at ≡ false
    pub identified : is_empty claims.id ≡ false
    pub same_method : claims.htm ≡ request.method
    pub uri : String
    pub read_uri : library.url_without_params (library.to_lower claims.htu) ≡ some uri
    pub same_uri : contains (audiences ctx) uri ≡ true
    pub timely :
        library.validate_claims claims (record { issuer = ""; subject = ""; any_audience = [] }) now
        ≡ true

  -- The proof is signed with the public key in its only header, and its claims are of this request.
  pub record IsProof (dpop : String) : Type 0 where
    pub parsed : Jws
    pub is_parsed : library.parse_signed dpop ctx.dpop_signature_algorithms ≡ some parsed
    pub header : JwsHeader
    pub one_header : parsed.headers ≡ header ∷ []
    pub typed : header.typ ≡ "dpop+jwt"
    pub jwk : Jwk
    pub has_jwk : header.jwk ≡ some jwk
    pub is_public : (library.jwk_valid jwk && library.jwk_is_public jwk) ≡ true
    pub claims : JwtClaims
    pub verified : library.verified_claims parsed jwk.key ≡ some claims
    pub of_request : IsOfRequest claims

  chosen :
      {R : Type 0} (b : Bool) (v w : Verdict)
      → (b ≡ true → v ≡ ok tt → R)
      → (b ≡ false → w ≡ ok tt → R)
      → (if b then v else w) ≡ ok tt
      → R
  chosen true v w f g h = f refl h
  chosen false v w f g h = g refl h

  err-not_ok : {R : Type 0} {e : goidc.Oidc.Effect.Error} → ◌≡◌ {A = Verdict} (err e) (ok tt) → R
  err-not_ok h = absurd cc

  htu-valid :
      (dpop : String) (claims : JwtClaims) (o : Option String)
      → validate_htu ctx dpop nothing_expected claims o ≡ ok tt
      → (uri : String) × (o ≡ some uri)
        × (contains (audiences ctx) uri ≡ true)
        × (library.validate_claims claims
              (record { issuer = ""; subject = ""; any_audience = [] })
              now
            ≡ true)
  htu-valid dpop claims none h = cc
  htu-valid dpop claims (some uri) h = (uri, refl, ground arith, ground arith)

  claims-IsOfRequest :
      (dpop : String) (claims : JwtClaims)
      → validate_dpop_claims ctx dpop nothing_expected claims ≡ ok tt
      → IsOfRequest claims
  unfolding validate_dpop_claims
  claims-IsOfRequest dpop claims h =
      chosen (is_too_old ctx claims.issued_at) _ _ (λ e k. err-not_ok k)
        (λ recent k.
          chosen (is_empty claims.id) _ _ (λ e l. err-not_ok l)
            (λ identified l.
              chosen (claims.htm != request.method) _ _ (λ e m. err-not_ok m)
                (λ same m.
                  let (uri, read, listed, timely) =
                    htu-valid dpop claims (library.url_without_params (library.to_lower claims.htu))
                      m in
                  record {
                    recent = recent;
                    identified = identified;
                    same_method = eq-of_!= _ _ same;
                    uri = uri;
                    read_uri = read;
                    same_uri = listed;
                    timely = timely;
                  })
                l)
            k)
        h

  claims-given :
      (dpop : String) (o : Option JwtClaims)
      → with_claims ctx dpop nothing_expected o ≡ ok tt
      → (claims : JwtClaims) × (o ≡ some claims) × IsOfRequest claims
  claims-given dpop none h = cc
  claims-given dpop (some claims) h = (claims, refl, claims-IsOfRequest dpop claims h)

  jwk-given :
      (dpop : String) (parsed : Jws) (o : Option Jwk)
      → with_jwk ctx dpop nothing_expected parsed o ≡ ok tt
      → (jwk : Jwk) × (o ≡ some jwk)
        × ((library.jwk_valid jwk && library.jwk_is_public jwk) ≡ true)
        × ((claims : JwtClaims) × (library.verified_claims parsed jwk.key ≡ some claims)
            × IsOfRequest claims)
  jwk-given dpop parsed none h = cc
  jwk-given dpop parsed (some jwk) h =
      chosen (library.jwk_valid jwk && library.jwk_is_public jwk) _ _
        (λ e k. (jwk, refl, e, claims-given dpop (library.verified_claims parsed jwk.key) k))
        (λ e k. err-not_ok k) h

  headers-given :
      (dpop : String) (parsed : Jws) (hs : List JwsHeader)
      → with_headers ctx dpop nothing_expected parsed hs ≡ ok tt
      → (header : JwsHeader) × (hs ≡ header ∷ [])
        × (header.typ ≡ "dpop+jwt")
        × (with_jwk ctx dpop nothing_expected parsed header.jwk ≡ ok tt)
  headers-given dpop parsed [] h = cc
  headers-given dpop parsed (header ∷ []) h =
      chosen (header.typ != "dpop+jwt") _ _ (λ e k. err-not_ok k)
        (λ e k. (header, refl, eq-of_!= _ _ e, k)) h
  headers-given dpop parsed (header ∷ next ∷ hs) h = cc

  parsed-IsProof :
      (dpop : String) (o : Option Jws)
      → library.parse_signed dpop ctx.dpop_signature_algorithms ≡ o
      → with_parsed ctx dpop nothing_expected o ≡ ok tt
      → IsProof dpop
  parsed-IsProof dpop none e h = cc
  parsed-IsProof dpop (some parsed) e h =
      let (header, one, typed, k) = headers-given dpop parsed parsed.headers h in
      let (jwk, has, public, proof) = jwk-given dpop parsed header.jwk k in
      let (claims, verified, valid) = proof in
      record {
        parsed = parsed;
        is_parsed = e;
        header = header;
        one_header = one;
        typed = typed;
        jwk = jwk;
        has_jwk = has;
        is_public = public;
        claims = claims;
        verified = verified;
        of_request = valid;
      }

  -- A proof that passes is one of possession for this request.
  pub validated-IsProof :
      (dpop : String) → validate_dpop_jwt ctx dpop nothing_expected ≡ ok tt → IsProof dpop
  unfolding validate_dpop_jwt
  validated-IsProof dpop h =
      parsed-IsProof dpop (library.parse_signed dpop ctx.dpop_signature_algorithms) refl h
