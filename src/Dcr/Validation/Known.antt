-- ===== src/Dcr/Validation/Known.antt =====
-- What a registration that passes the validations has of algorithms and keys
-- (internal/dcr/validation.go).
use goidc.Base.{
  String, Bool, true, false, Option, none, some, List, [], ◌∷◌, ◌==◌, ◌&&◌, not, ◌≡◌, refl, ap, sym,
  ◌∙◌, arith, All, contains, is_empty, if◌then◌else◌,
}
use goidc.Dcr.Request.{DynamicClientRequest}
use goidc.Dcr.Validation.{validate_keys, validate_jwks, validate_raw_jwks, validate_public_jwks}
use goidc.Dcr.Validation.Algorithms.{
  refuse_if, ◌else_refuse◌, refuse_unless_listed, refuse_encryption, validate_content_encryption,
  validate_client_signature_algorithm_for_private_key_jwt,
  validate_client_signature_algorithm_for_client_secret_jwt, validate_id_token_signature_algorithm,
  validate_id_token_encryption_algorithms, validate_user_info_signature_algorithm,
  validate_user_info_encryption_algorithms, validate_jar_signature_algorithm,
  validate_jar_encryption_algorithms, validate_jarm_signature_algorithm,
  validate_jarm_encryption_algorithms,
}
use goidc.Model.Const.ClientAuthn
use goidc.Oidc.Algorithms.{
  user_info_signature_algorithms, jarm_signature_algorithms, jar_key_encryption_algorithms,
}
use goidc.Oidc.Context.{Context}
use goidc.Oidc.Effect.{Outcome, Verdict, ok, err, panic, crash}
use goidc.Oidc.Library.{Jwk}
use goidc.Storage.{Fetched, found, failed}

-- An algorithm that is asked for is one of those that are looked up.
abbrev pub IsListed : Outcome (List String) → String → Type 0
IsListed o algorithm =
    is_empty algorithm ≡ false
    → (algorithms : List String) × (o ≡ ok algorithms) × (contains algorithms algorithm ≡ true)

-- The algorithms of an encryption: none where it is off, and else ones of the server, where the one for
-- the content comes with one for the key.
pub record IsEncryption (enabled : Bool) (keys contents : List String) (key content : String)
    : Type 0 where
  pub off : enabled ≡ false → (is_empty key ≡ true) × (is_empty content ≡ true)
  pub key_known : enabled ≡ true → is_empty key ≡ false → contains keys key ≡ true
  pub content_known :
      enabled ≡ true
      → is_empty content ≡ false
      → (is_empty key ≡ false) × (contains contents content ≡ true)

listed :
    (o : Outcome (List String)) (algorithm message : String)
    → (if is_empty algorithm then ok tt else refuse_unless_listed o algorithm message) ≡ ok tt
    → IsListed o algorithm
listed (ok algorithms) algorithm message h given = (algorithms, refl, ground arith)
listed (err e) algorithm message h given = absurd (ground arith)
listed panic algorithm message h given = absurd (ground arith)
listed crash algorithm message h given = absurd (ground arith)

encryption :
    (enabled : Bool) (keys contents : List String)
    (key content refusal unknown required unsupported : String)
    → (if not enabled
        then refuse_encryption key content refusal
        else refuse_if (not (is_empty key) && not (contains keys key)) unknown
          else_refuse validate_content_encryption contents key content required unsupported)
      ≡ ok tt
    → IsEncryption enabled keys contents key content
encryption enabled keys contents key content refusal unknown required unsupported h = record {
  off = λ e. (ground arith, ground arith);
  key_known = λ e given. ground arith;
  content_known = λ e given. (ground arith, ground arith);
}

module _ (ctx : Context) where
  open ctx use {library}

  abbrev IsKey : Jwk → Type 0
  IsKey key = (library.jwk_is_public key && library.jwk_valid key) ≡ true

  keys-IsKey :
      (req : DynamicClientRequest) (keys : List Jwk)
      → validate_keys ctx req keys ≡ ok tt
      → All IsKey keys
  keys-IsKey req [] h = tt
  keys-IsKey req (key ∷ keys) h = (ground arith, keys-IsKey req keys (ground arith))

  jwks-IsKey :
      (req : DynamicClientRequest) (f : Fetched (List Jwk))
      → validate_jwks ctx req f ≡ ok tt
      → (keys : List Jwk) × (f ≡ found keys) × All IsKey keys
  jwks-IsKey req (failed message) h = cc
  jwks-IsKey req (found keys) h = (keys, refl, keys-IsKey req keys h)

  module _ (req : DynamicClientRequest) where
    -- The algorithms and the keys of a registration are known to the server.
    pub record IsKnown : Type 0 where
      pub key_signature :
          req.authn_method ≡ ClientAuthn.private_key_jwt
          → is_empty req.authn_signature_algorithm ≡ false
          → contains ctx.private_key_jwt_signature_algorithms req.authn_signature_algorithm ≡ true
      pub secret_signature :
          req.authn_method ≡ ClientAuthn.secret_jwt
          → is_empty req.authn_signature_algorithm ≡ false
          → contains ctx.client_secret_jwt_signature_algorithms req.authn_signature_algorithm ≡ true
      pub id_token_signature :
          IsListed (user_info_signature_algorithms ctx) req.id_token_signature_algorithm
      pub user_info_signature :
          IsListed (user_info_signature_algorithms ctx) req.user_info_signature_algorithm
      pub jarm_signature : IsListed (jarm_signature_algorithms ctx) req.jarm_signature_algorithm
      pub jar_signature :
          is_empty req.jar_signature_algorithm ≡ false
          → contains ctx.jar_signature_algorithms req.jar_signature_algorithm ≡ true
      pub id_token_encryption :
          IsEncryption ctx.user_info_encryption_is_enabled ctx.user_info_key_encryption_algorithms
            ctx.user_info_content_encryption_algorithms req.id_token_key_encryption_algorithm
            req.id_token_content_encryption_algorithm
      pub user_info_encryption :
          IsEncryption ctx.user_info_encryption_is_enabled ctx.user_info_key_encryption_algorithms
            ctx.user_info_content_encryption_algorithms req.user_info_key_encryption_algorithm
            req.user_info_content_encryption_algorithm
      pub jarm_encryption :
          IsEncryption ctx.jarm_is_enabled ctx.jarm_key_encryption_algorithms
            ctx.jarm_content_encryption_algorithms req.jarm_key_encryption_algorithm
            req.jarm_content_encryption_algorithm
      pub jar_encryption_off :
          ctx.jar_encryption_is_enabled ≡ false
          → (is_empty req.jar_key_encryption_algorithm ≡ true)
            × (is_empty req.jar_content_encryption_algorithm ≡ true)
      pub jar_key_known :
          ctx.jar_encryption_is_enabled ≡ true
          → IsListed (jar_key_encryption_algorithms ctx) req.jar_key_encryption_algorithm
      pub jar_content_known :
          ctx.jar_encryption_is_enabled ≡ true
          → is_empty req.jar_content_encryption_algorithm ≡ false
          → (is_empty req.jar_key_encryption_algorithm ≡ false)
            × (contains ctx.jar_content_encryption_algorithms req.jar_content_encryption_algorithm
                ≡ true)
      pub keys_valid :
          (raw : String)
          → req.public_jwks ≡ some raw
          → (keys : List Jwk) × (library.unmarshal_jwks raw ≡ found keys) × All IsKey keys

    pub key-signature :
        validate_client_signature_algorithm_for_private_key_jwt ctx req ≡ ok tt
        → (req.authn_method == ClientAuthn.private_key_jwt) ≡ true
        → is_empty req.authn_signature_algorithm ≡ false
        → contains ctx.private_key_jwt_signature_algorithms req.authn_signature_algorithm ≡ true
    unfolding validate_client_signature_algorithm_for_private_key_jwt
    key-signature h e given = ground arith

    pub secret-signature :
        validate_client_signature_algorithm_for_client_secret_jwt ctx req ≡ ok tt
        → (req.authn_method == ClientAuthn.secret_jwt) ≡ true
        → is_empty req.authn_signature_algorithm ≡ false
        → contains ctx.client_secret_jwt_signature_algorithms req.authn_signature_algorithm ≡ true
    unfolding validate_client_signature_algorithm_for_client_secret_jwt
    secret-signature h e given = ground arith

    pub id_token-signature :
        validate_id_token_signature_algorithm ctx req ≡ ok tt
        → IsListed (user_info_signature_algorithms ctx) req.id_token_signature_algorithm
    unfolding validate_id_token_signature_algorithm
    id_token-signature h =
        listed (user_info_signature_algorithms ctx) req.id_token_signature_algorithm _ h

    pub user_info-signature :
        validate_user_info_signature_algorithm ctx req ≡ ok tt
        → IsListed (user_info_signature_algorithms ctx) req.user_info_signature_algorithm
    unfolding validate_user_info_signature_algorithm
    user_info-signature h =
        listed (user_info_signature_algorithms ctx) req.user_info_signature_algorithm _ h

    pub jarm-signature :
        validate_jarm_signature_algorithm ctx req ≡ ok tt
        → IsListed (jarm_signature_algorithms ctx) req.jarm_signature_algorithm
    unfolding validate_jarm_signature_algorithm
    jarm-signature h = listed (jarm_signature_algorithms ctx) req.jarm_signature_algorithm _ h

    pub jar-signature :
        validate_jar_signature_algorithm ctx req ≡ ok tt
        → is_empty req.jar_signature_algorithm ≡ false
        → contains ctx.jar_signature_algorithms req.jar_signature_algorithm ≡ true
    unfolding validate_jar_signature_algorithm
    jar-signature h given = ground arith

    pub id_token-IsEncryption :
        validate_id_token_encryption_algorithms ctx req ≡ ok tt
        → IsEncryption ctx.user_info_encryption_is_enabled ctx.user_info_key_encryption_algorithms
            ctx.user_info_content_encryption_algorithms req.id_token_key_encryption_algorithm
            req.id_token_content_encryption_algorithm
    unfolding validate_id_token_encryption_algorithms
    id_token-IsEncryption h =
        encryption ctx.user_info_encryption_is_enabled ctx.user_info_key_encryption_algorithms
          ctx.user_info_content_encryption_algorithms req.id_token_key_encryption_algorithm
          req.id_token_content_encryption_algorithm _ _ _ _ h

    pub user_info-IsEncryption :
        validate_user_info_encryption_algorithms ctx req ≡ ok tt
        → IsEncryption ctx.user_info_encryption_is_enabled ctx.user_info_key_encryption_algorithms
            ctx.user_info_content_encryption_algorithms req.user_info_key_encryption_algorithm
            req.user_info_content_encryption_algorithm
    unfolding validate_user_info_encryption_algorithms
    user_info-IsEncryption h =
        encryption ctx.user_info_encryption_is_enabled ctx.user_info_key_encryption_algorithms
          ctx.user_info_content_encryption_algorithms req.user_info_key_encryption_algorithm
          req.user_info_content_encryption_algorithm _ _ _ _ h

    pub jarm-IsEncryption :
        validate_jarm_encryption_algorithms ctx req ≡ ok tt
        → IsEncryption ctx.jarm_is_enabled ctx.jarm_key_encryption_algorithms
            ctx.jarm_content_encryption_algorithms req.jarm_key_encryption_algorithm
            req.jarm_content_encryption_algorithm
    unfolding validate_jarm_encryption_algorithms
    jarm-IsEncryption h =
        encryption ctx.jarm_is_enabled ctx.jarm_key_encryption_algorithms
          ctx.jarm_content_encryption_algorithms req.jarm_key_encryption_algorithm
          req.jarm_content_encryption_algorithm _ _ _ _ h

    both : (v w : Verdict) → (v else_refuse w) ≡ ok tt → (v ≡ ok tt) × (w ≡ ok tt)
    both (ok u) w h = (refl, h)
    both (err e) w h = cc
    both panic w h = cc
    both crash w h = cc

    pub jar-off :
        validate_jar_encryption_algorithms ctx req ≡ ok tt
        → ctx.jar_encryption_is_enabled ≡ false
        → (is_empty req.jar_key_encryption_algorithm ≡ true)
          × (is_empty req.jar_content_encryption_algorithm ≡ true)
    unfolding validate_jar_encryption_algorithms
    jar-off h e = (ground arith, ground arith)

    jar-on :
        (b : Bool) (v w x : Verdict)
        → b ≡ true
        → (if not b then v else (w else_refuse x)) ≡ ok tt
        → (w ≡ ok tt) × (x ≡ ok tt)
    jar-on true v w x e h = both w x h
    jar-on false v w x e h = cc

    pub jar-parts :
        validate_jar_encryption_algorithms ctx req ≡ ok tt
        → ctx.jar_encryption_is_enabled ≡ true
        → IsListed (jar_key_encryption_algorithms ctx) req.jar_key_encryption_algorithm
          × (is_empty req.jar_content_encryption_algorithm ≡ false
              → (is_empty req.jar_key_encryption_algorithm ≡ false)
                × (contains ctx.jar_content_encryption_algorithms
                      req.jar_content_encryption_algorithm
                    ≡ true))
    unfolding validate_jar_encryption_algorithms
    jar-parts h e =
        let (key, content) = jar-on ctx.jar_encryption_is_enabled _ _ _ e h in
        (
          listed (jar_key_encryption_algorithms ctx) req.jar_key_encryption_algorithm _ key,
          λ given. (ground arith, ground arith),
        )

    raw-IsKey :
        (o : Option String)
        → validate_raw_jwks ctx req o ≡ ok tt
        → (raw : String) → o ≡ some raw
        → (keys : List Jwk) × (library.unmarshal_jwks raw ≡ found keys) × All IsKey keys
    raw-IsKey none h raw e = absurd cc
    raw-IsKey (some text) h raw e =
        let same : text ≡ raw = cc in
        let (keys, read, valid) = jwks-IsKey req (library.unmarshal_jwks text) h in
        (keys, ap library.unmarshal_jwks (sym same) ∙ read, valid)

    pub public-keys :
        validate_public_jwks ctx req ≡ ok tt
        → (raw : String) → req.public_jwks ≡ some raw
        → (keys : List Jwk) × (library.unmarshal_jwks raw ≡ found keys) × All IsKey keys
    unfolding validate_public_jwks
    public-keys h raw e = raw-IsKey req.public_jwks h raw e
