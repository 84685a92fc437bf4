-- ===== src/Authn/Proven/Assertion.antt =====
-- What a client has shown that authenticated with an assertion (internal/authn/util.go).
use goidc.Base.{
  ℕ, String, Bool, true, false, Option, none, some, List, [], ◌∷◌, ◌!=◌, ◌≡◌, refl, ap, sym, arith,
  is_empty, if◌then◌else◌, eq-of_!=, subst,
}
use goidc.Authn.Assertion.{
  lifetime_is_too_long, are_assertion_claims_valid, algorithms_or, checked_claims, as_outcome,
  with_key, with_headers, with_assertion, claims_by_secret, authenticate_with_private_key_jwt,
  authenticate_with_client_secret_jwt,
}
use goidc.Authn.ClientId.{ClientAuthnRequest}
use goidc.Model.Client.{Client}
use goidc.Model.Const.{assertion_type_jwt_bearer}
use goidc.Oidc.Context.{Context, State}
use goidc.Oidc.Effect.{Error, ok}
use goidc.Oidc.Http.{audiences}
use goidc.Oidc.Keys.{client_public_key}
use goidc.Oidc.Library.{Jwk, Jws, JwsHeader, JwtClaims, bytes}
use goidc.Storage.{Fetched, found, failed}

module _ (ctx : Context) (req : ClientAuthnRequest) where
  open ctx use {library, now}

  -- The claims of an assertion are about the client, for this server, and do not last too long.
  pub record IsAbout (c : Client) (max_lifetime_secs : ℕ) (claims : JwtClaims) : Type 0 where
    pub short : lifetime_is_too_long ctx claims max_lifetime_secs ≡ false
    pub valid :
        library.validate_claims claims
          (record { issuer = c.id; subject = c.id; any_audience = audiences ctx })
          now
        ≡ true

  -- The assertion is signed with an algorithm of the client or of the method.
  abbrev pub IsAssertion : Client → List String → Jws → Type 0
  IsAssertion c algorithms assertion =
      (req.client_assertion_type ≡ assertion_type_jwt_bearer)
      × (library.parse_signed req.client_assertion
            (algorithms_or ctx c.authn_signature_algorithm algorithms)
          ≡ some assertion)

  -- The assertion was made with the client's secret.
  pub record BySecret (c : Client) : Type 0 where
    pub assertion : Jws
    pub given : IsAssertion c ctx.client_secret_jwt_signature_algorithms assertion
    pub claims : JwtClaims
    pub verified : library.verified_claims assertion (bytes c.secret) ≡ some claims
    pub about : IsAbout c ctx.client_secret_jwt_assertion_lifetime_secs claims

  -- The assertion was made with the client's key that its only header names; `d` is the client after
  -- the look-up of the key.
  pub record ByKey (c d : Client) (s t : State ctx) : Type 0 where
    pub assertion : Jws
    pub given : IsAssertion c ctx.private_key_jwt_signature_algorithms assertion
    pub header : JwsHeader
    pub one_header : assertion.headers ≡ header ∷ []
    pub names_key : is_empty header.key_id ≡ false
    pub jwk : Jwk
    pub looked_up : client_public_key ctx header.key_id c s ≡ ((found jwk, d), t)
    pub claims : JwtClaims
    pub verified : library.verified_claims assertion jwk.key ≡ some claims
    pub about : IsAbout d ctx.private_key_jwt_assertion_lifetime_secs claims

  valid-IsAbout :
      (c : Client) (n : ℕ) (claims : JwtClaims)
      → are_assertion_claims_valid ctx c claims n ≡ none
      → IsAbout c n claims
  unfolding are_assertion_claims_valid
  valid-IsAbout c n claims h = record { short = ground arith; valid = ground arith }

  checked-IsAbout :
      (c : Client) (n : ℕ) (message : String) (o : Option JwtClaims)
      → checked_claims ctx c n message o ≡ none
      → (claims : JwtClaims) × (o ≡ some claims) × IsAbout c n claims
  checked-IsAbout c n message none h = cc
  checked-IsAbout c n message (some claims) h = (claims, refl, valid-IsAbout c n claims h)

  secret-given :
      (c : Client) (o : Option Jws)
      → claims_by_secret ctx c o ≡ none
      → (assertion : Jws) × (o ≡ some assertion)
        × ((claims : JwtClaims) × (library.verified_claims assertion (bytes c.secret) ≡ some claims)
            × IsAbout c ctx.client_secret_jwt_assertion_lifetime_secs claims)
  secret-given c none h = cc
  secret-given c (some assertion) h = (
    assertion,
    refl,
    checked-IsAbout c ctx.client_secret_jwt_assertion_lifetime_secs "invalid assertion"
        (library.verified_claims assertion (bytes c.secret)) h,
  )

  pub unless :
      {A : Type 0} {R : Type 0} (b : Bool) (v w : A) (target : A)
      → (v ≡ target → R)
      → (b ≡ false → w ≡ target → R)
      → (if b then v else w) ≡ target
      → R
  unless true v w target f g h = f h
  unless false v w target f g h = g refl h

  pub secret-BySecret :
      (c : Client) → authenticate_with_client_secret_jwt ctx c req ≡ none → BySecret c
  unfolding authenticate_with_client_secret_jwt
  secret-BySecret c h =
      unless (req.client_assertion_type != assertion_type_jwt_bearer) _ _ none (λ k. absurd cc)
        (λ typed k.
          let (assertion, parsed, proof) = secret-given c _ k in
          let (claims, verified, about) = proof in
          record {
            assertion = assertion;
            given = (eq-of_!= _ _ typed, parsed);
            claims = claims;
            verified = verified;
            about = about;
          })
        h

  outcome-ok : (o : Option Error) (c d : Client) → as_outcome ctx o c ≡ ok d → (o ≡ none) × (d ≡ c)
  outcome-ok none c d h = (refl, cc)
  outcome-ok (some e) c d h = cc

  key-given :
      (assertion : Jws) (r : (Fetched Jwk × Client) × State ctx) (d : Client) (t : State ctx)
      → with_key ctx assertion r ≡ (ok d, t)
      → (jwk : Jwk) × (r ≡ ((found jwk, d), t))
        × ((claims : JwtClaims) × (library.verified_claims assertion jwk.key ≡ some claims)
            × IsAbout d ctx.private_key_jwt_assertion_lifetime_secs claims)
  key-given assertion ((failed message, c), s) d t h = cc
  key-given assertion ((found jwk, c), s) d t h =
      let (passed, same) = outcome-ok _ c d (ap (λ x. x.0) h) in
      let proof =
        checked-IsAbout c ctx.private_key_jwt_assertion_lifetime_secs "invalid assertion signature"
          (library.verified_claims assertion jwk.key) passed in
      (
        jwk,
        (λ i. ((found jwk, sym same i), (h i).1)),
        (
          proof.0,
          proof.1,
          subst (λ x. IsAbout x ctx.private_key_jwt_assertion_lifetime_secs proof.0) (sym same)
              proof.2,
        ),
      )

  header-given :
      (c d : Client) (s t : State ctx) (assertion : Jws) (hs : List JwsHeader)
      → assertion.headers ≡ hs
      → IsAssertion c ctx.private_key_jwt_signature_algorithms assertion
      → with_headers ctx assertion hs c s ≡ (ok d, t)
      → ByKey c d s t
  header-given c d s t assertion [] e given h = cc
  header-given c d s t assertion (header ∷ []) e given h =
      unless (is_empty header.key_id) _ _ (ok d, t) (λ k. absurd cc)
        (λ named k.
          let (jwk, looked, proof) =
            key-given assertion (client_public_key ctx header.key_id c s) d t k in
          let (claims, verified, about) = proof in
          record {
            assertion = assertion;
            given = given;
            header = header;
            one_header = e;
            names_key = named;
            jwk = jwk;
            looked_up = looked;
            claims = claims;
            verified = verified;
            about = about;
          })
        h
  header-given c d s t assertion (header ∷ next ∷ hs) e given h = cc

  assertion-given :
      (c d : Client) (s t : State ctx) (o : Option Jws)
      → req.client_assertion_type ≡ assertion_type_jwt_bearer
      → library.parse_signed req.client_assertion
          (algorithms_or ctx c.authn_signature_algorithm ctx.private_key_jwt_signature_algorithms)
        ≡ o
      → with_assertion ctx o c s ≡ (ok d, t)
      → ByKey c d s t
  assertion-given c d s t none typed e h = cc
  assertion-given c d s t (some assertion) typed e h =
      header-given c d s t assertion assertion.headers refl (typed, e) h

  pub key-ByKey :
      (c d : Client) (s t : State ctx)
      → authenticate_with_private_key_jwt ctx c req s ≡ (ok d, t)
      → ByKey c d s t
  unfolding authenticate_with_private_key_jwt
  key-ByKey c d s t h =
      unless (req.client_assertion_type != assertion_type_jwt_bearer) _ _ (ok d, t) (λ k. absurd cc)
        (λ typed k. assertion-given c d s t _ (eq-of_!= _ _ typed) refl k) h
