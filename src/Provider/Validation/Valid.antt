-- ===== src/Provider/Validation/Valid.antt =====
-- What a configuration that passes the validations satisfies (pkg/provider/validations.go).
use goidc.Base.{
  String, true, false, List, [], ◌∷◌, ◌++◌, ◌==◌, ◌!=◌, ◌&&◌, ◌≡◌, refl, arith, eq_iff, All, All-++,
  any, contains, starts_with,
}
use goidc.Model.Const.ClientAuthn
use goidc.Model.Const.GrantType
use goidc.Model.Const.KeyUsage
use goidc.Model.Const.Profile
use goidc.Oidc.Config.{Configuration}
use goidc.Oidc.Library.{Jwk, Library}
use goidc.Provider.Validation.{
  ◌and_valid◌, Validity, valid, invalid, broken, run_validations, only_key,
  validate_signature_key_ids, validate_signature_keys, validate_encryption_key_ids,
  validate_encryption_keys, validate_fapi2_profile, validations, validate_configuration,
}

run_validations-All : (vs : List Validity) → run_validations vs ≡ valid → All (λ v. v ≡ valid) vs
unfolding run_validations
run_validations-All [] h = tt
run_validations-All (valid ∷ vs) h = (refl, run_validations-All vs h)
run_validations-All (invalid e ∷ vs) h = cc
run_validations-All (broken ∷ vs) h = cc

module _ (library : Library) (config : Configuration) where
  -- The server has one key of the ID, an asymmetric one for signatures.
  abbrev pub HasSigningKey : String → Type 0
  HasSigningKey id =
      (key : Jwk) × (library.keys_by_id config.private_jwks id ≡ key ∷ [])
      × (key.usage ≡ KeyUsage.signature)
      × (starts_with key.algorithm "HS" ≡ false)

  -- The server has one key of the ID, for encryption.
  abbrev pub HasEncryptionKey : String → Type 0
  HasEncryptionKey id =
      (key : Jwk) × (library.keys_by_id config.private_jwks id ≡ key ∷ [])
      × (key.usage ≡ KeyUsage.encryption)

  only_key-valid :
      (id : String) (keys : List Jwk) (test : Jwk → Validity)
      → only_key library config id keys test ≡ valid
      → (key : Jwk) × (keys ≡ key ∷ []) × (test key ≡ valid)
  only_key-valid id [] test h = cc
  only_key-valid id (key ∷ []) test h = (key, refl, h)
  only_key-valid id (key ∷ other ∷ keys) test h = cc

  both-valid : (v w : Validity) → (v and_valid w) ≡ valid → (v ≡ valid) × (w ≡ valid)
  both-valid valid w h = (refl, h)
  both-valid (invalid e) w h = cc
  both-valid broken w h = cc

  signature_key_ids-All :
      (ids : List String)
      → validate_signature_key_ids library config ids ≡ valid
      → All HasSigningKey ids
  signature_key_ids-All [] h = tt
  signature_key_ids-All (id ∷ ids) h =
      let (first, rest) = both-valid _ _ h in
      let (key, only, tested) =
        only_key-valid id (library.keys_by_id config.private_jwks id) _ first in
      (
        (key, only, ground (arith, eq_iff key.usage KeyUsage.signature), ground arith),
        signature_key_ids-All ids rest,
      )

  encryption_key_ids-All :
      (ids : List String)
      → validate_encryption_key_ids library config ids ≡ valid
      → All HasEncryptionKey ids
  encryption_key_ids-All [] h = tt
  encryption_key_ids-All (id ∷ ids) h =
      let (first, rest) = both-valid _ _ h in
      let (key, only, tested) =
        only_key-valid id (library.keys_by_id config.private_jwks id) _ first in
      (
        (key, only, ground (arith, eq_iff key.usage KeyUsage.encryption)),
        encryption_key_ids-All ids rest,
      )

  -- The demands of FAPI 2.0 on a server.
  pub record IsFapi2 : Type 0 where
    pub methods :
        any
          (λ m. (m != ClientAuthn.private_key_jwt) && (m != ClientAuthn.tls))
          config.client_authn_methods
        ≡ false
    pub no_implicit : contains config.grant_types GrantType.implicit ≡ false
    pub pushed : (config.par_is_enabled ≡ true) × (config.par_is_required ≡ true)
    pub pkce : (config.pkce_is_enabled ≡ true) × (config.pkce_is_required ≡ true)
    pub issuer : config.issuer_response_parameter_is_enabled ≡ true
    pub not_rotated :
        contains config.grant_types GrantType.refresh_token ≡ true
        → config.should_rotate_refresh_tokens ≡ false

  fapi2-valid :
      (config.profile == Profile.fapi2) ≡ true
      → validate_fapi2_profile library config ≡ valid
      → IsFapi2
  unfolding validate_fapi2_profile
  fapi2-valid e h = record {
    methods = ground arith;
    no_implicit = ground arith;
    pushed = (ground arith, ground arith);
    pkce = (ground arith, ground arith);
    issuer = ground arith;
    not_rotated = λ r. ground arith;
  }

  -- The keys that a configuration names, and its profile.
  pub record IsValid : Type 0 where
    pub default_key : HasSigningKey config.default_user_info_signature_key_id
    pub user_info_keys : All HasSigningKey config.user_info_signature_key_ids
    pub jarm_keys : All HasSigningKey config.jarm_signature_key_ids
    pub encryption_keys : All HasEncryptionKey config.jar_key_encryption_ids
    pub fapi2 : config.profile ≡ Profile.fapi2 → IsFapi2

  pub validated-IsValid : validate_configuration library config ≡ valid → IsValid
  unfolding validate_configuration validate_signature_keys validate_encryption_keys
  validated-IsValid h =
      let passed = run_validations-All (validations library config) h in
      let (default, ids) =
        signature_key_ids-All
          (config.default_user_info_signature_key_id
            ∷ (config.user_info_signature_key_ids ++ config.jarm_signature_key_ids))
          passed.1.0 in
      let (user_info, jarm) =
        All-++ HasSigningKey config.user_info_signature_key_ids config.jarm_signature_key_ids ids in
      record {
        default_key = default;
        user_info_keys = user_info;
        jarm_keys = jarm;
        encryption_keys = encryption_key_ids-All config.jar_key_encryption_ids passed.1.1.0;
        fapi2 = λ e.
            fapi2-valid ((eq_iff config.profile Profile.fapi2).1 e) passed.1.1.1.1.1.1.1.1.1.1.1.0;
      }
