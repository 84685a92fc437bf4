-- ===== src/Provider/Served.antt =====
-- A provider that was built finds its keys, and one of the profile FAPI 2.0 keeps that profile
-- (pkg/provider/provider.go, internal/oidc/context.go).
use goidc.Base.{
  ℕ, String, Bool, true, false, Option, some, List, [], ◌∷◌, ◌≡◌, refl, ap, ◌∙◌, subst, All,
  All-contains, starts_with, is_empty, Bool-cases, inl, inr, is-true-and-false, ◌&&◌, ◌≢◌,
}
use goidc.Dcr.{create}
use goidc.Dcr.Created.{create-ok}
use goidc.Dcr.Request.{DynamicClientRequest, DynamicClientResponse}
use goidc.Discovery.{well_known, list_if, document}
use goidc.Discovery.Document.{OpenIdConfiguration}
use goidc.Model.Client.{Client}
use goidc.Model.Const.KeyUsage
use goidc.Model.Const.Profile
use goidc.Oidc.Algorithms.{
  algorithm_and, key_signature_algorithms, key_encryption_algorithms,
  user_info_signature_algorithms, jarm_signature_algorithms, jar_key_encryption_algorithms,
}
use goidc.Oidc.Config.{Request}
use goidc.Oidc.Context.{Context, State}
use goidc.Oidc.Effect.{Outcome, ok}
use goidc.Oidc.Keys.{
  head?, private_key, private_key_based_on_algorithm_or_default, id_token_signature_key,
  user_info_signature_key, jarm_signature_key,
}
use goidc.Oidc.Library.{Jwk, Library}
use goidc.Provider.{Built, built, refused, panicked, if_valid, apply_options, new}
use goidc.Provider.Defaults.{Provider, ProviderOption, default_provider, new_context}
use goidc.Provider.Sound.{IsOption, IsSound, configured-IsSound}
use goidc.Provider.Validation.{Validity, valid, invalid, broken, validate_configuration}
use goidc.Provider.Validation.Valid.{
  HasSigningKey, HasEncryptionKey, IsValid, IsFapi2, validated-IsValid,
}

abbrev pub provider_or : Provider → Built → Provider
provider_or default (built p) = p
provider_or default (refused e) = default
provider_or default panicked = default

if_valid-built : (v : Validity) (p q : Provider) → if_valid v p ≡ built q → (v ≡ valid) × (p ≡ q)
if_valid-built valid p q h = (refl, ap (provider_or p) h)
if_valid-built (invalid e) p q h = cc
if_valid-built broken p q h = cc

-- A key that was found, an asymmetric one for signatures.
abbrev pub IsSigningKey : Option Jwk → Type 0
IsSigningKey o =
    (key : Jwk) × (o ≡ some key)
    × (key.usage ≡ KeyUsage.signature)
    × (starts_with key.algorithm "HS" ≡ false)

module _ (p : Provider) (library : Library) (request : Request) (now : ℕ) where
  abbrev pub served : Context
  served = new_context p library request now

  private_key-IsSigningKey :
      (id : String) → HasSigningKey library p.config id → IsSigningKey (private_key served id)
  unfolding private_key
  private_key-IsSigningKey id (key, only, usage, algorithm) = (key, ap head? only, usage, algorithm)

  chosen-IsSigningKey :
      (algorithm default : String) (ids : List String)
      → HasSigningKey library p.config default
      → All (HasSigningKey library p.config) ids
      → IsSigningKey (private_key_based_on_algorithm_or_default served algorithm default ids)
  unfolding private_key_based_on_algorithm_or_default
  chosen-IsSigningKey algorithm default [] d a = private_key-IsSigningKey default d
  chosen-IsSigningKey algorithm default (id ∷ ids) d a = elim (Bool-cases (is_empty algorithm)) [
    | inl e ↦ rw e (private_key-IsSigningKey default d)
    | inr e ↦ rw e (private_key-IsSigningKey id a.0)
  ]

  algorithms-found :
      (ids : List String)
      → All (HasSigningKey library p.config) ids
      → (algorithms : List String) × (key_signature_algorithms served ids ≡ ok algorithms)
  unfolding key_signature_algorithms
  algorithms-found [] a = ([], refl)
  algorithms-found (id ∷ ids) a =
      let (rest, e) = algorithms-found ids a.1 in
      let (key, f, usage, algorithm) = private_key-IsSigningKey id a.0 in
      (
        key.algorithm ∷ rest,
        ap (λ o. algorithm_and o (key_signature_algorithms served ids)) f
            ∙ ap (algorithm_and (some key)) e,
      )

  encryption-found :
      (ids : List String)
      → All (HasEncryptionKey library p.config) ids
      → (algorithms : List String) × (key_encryption_algorithms served ids ≡ ok algorithms)
  unfolding key_encryption_algorithms private_key
  encryption-found [] a = ([], refl)
  encryption-found (id ∷ ids) a =
      let (rest, e) = encryption-found ids a.1 in
      let (key, only, usage) = a.0 in
      (
        key.algorithm ∷ rest,
        ap (λ o. algorithm_and o (key_encryption_algorithms served ids)) (ap head? only)
            ∙ ap (algorithm_and (some key)) e,
      )

  listed :
      (b : Bool) (r : Outcome (List String))
      → (algorithms : List String) × (r ≡ ok algorithms)
      → (algorithms : List String) × (list_if b r ≡ ok algorithms)
  listed true r h = h
  listed false r h = ([], refl)

module _ (library : Library) (issuer : String) (keys : List Jwk) (id : String)
    (opts : List ProviderOption) (p : Provider) where
  -- A provider that was built passed the validations.
  pub new-IsValid : new library issuer keys id opts ≡ built p → IsValid library p.config
  unfolding new
  new-IsValid h =
      let configured = apply_options opts (default_provider issuer keys id) in
      let (v, same) =
        if_valid-built (validate_configuration library configured.config) configured p h in
      subst (λ q. IsValid library q.config) same (validated-IsValid library configured.config v)

  -- A provider that was built of the options of the package has the scope "openid", its default
  -- keys are among those for their use, and its opaque tokens differ in length from refresh tokens.
  pub new-IsSound : All IsOption opts → new library issuer keys id opts ≡ built p → IsSound p
  unfolding new
  new-IsSound a h =
      let configured = apply_options opts (default_provider issuer keys id) in
      let (v, same) =
        if_valid-built (validate_configuration library configured.config) configured p h in
      subst IsSound same (configured-IsSound issuer keys id opts a)

  -- A provider that was built of the options of the package finds, for each client, asymmetric keys
  -- to sign ID tokens and the user information, and, with JARM, authorization responses.
  pub signing-keys-found :
      (request : Request) (now : ℕ) (c : Client)
      → All IsOption opts
      → new library issuer keys id opts ≡ built p
      → IsSigningKey (id_token_signature_key (served p library request now) c)
        × IsSigningKey (user_info_signature_key (served p library request now) c)
        × (p.jarm_is_enabled ≡ true
            → IsSigningKey (jarm_signature_key (served p library request now) c))
  unfolding id_token_signature_key user_info_signature_key jarm_signature_key
  signing-keys-found request now c a h =
      let found = new-IsValid h in
      let sound = new-IsSound a h in
      let ctx = served p library request now in
      (
        chosen-IsSigningKey p library request now c.id_token_signature_algorithm
            p.default_user_info_signature_key_id p.user_info_signature_key_ids found.default_key
            found.user_info_keys,
        chosen-IsSigningKey p library request now c.user_info_signature_algorithm
            p.default_user_info_signature_key_id p.user_info_signature_key_ids found.default_key
            found.user_info_keys,
        λ e.
            chosen-IsSigningKey p library request now c.jarm_signature_algorithm
              p.default_jarm_signature_key_id p.jarm_signature_key_ids
              (All-contains (HasSigningKey library p.config) p.jarm_signature_key_ids
                p.default_jarm_signature_key_id found.jarm_keys (sound.2 e))
              found.jarm_keys,
      )

  -- A provider that was built publishes its metadata at every request.
  pub well_known-ok :
      (request : Request) (now : ℕ)
      → new library issuer keys id opts ≡ built p
      → (config : OpenIdConfiguration) × (well_known (served p library request now) ≡ ok config)
  unfolding well_known user_info_signature_algorithms jarm_signature_algorithms
      jar_key_encryption_algorithms
  well_known-ok request now h =
      let found = new-IsValid h in
      let ctx = served p library request now in
      let (xs, e) =
        algorithms-found p library request now p.user_info_signature_key_ids found.user_info_keys in
      let (ys, f) =
        listed p library request now (p.jar_is_enabled && p.jar_encryption_is_enabled)
          (key_encryption_algorithms ctx p.jar_key_encryption_ids)
          (encryption-found p library request now p.jar_key_encryption_ids found.encryption_keys) in
      let (zs, g) =
        listed p library request now p.jarm_is_enabled
          (key_signature_algorithms ctx p.jarm_signature_key_ids)
          (algorithms-found p library request now p.jarm_signature_key_ids found.jarm_keys) in
      (document ctx xs ys zs, rw (e, f, g) refl)

  -- A provider of the profile FAPI 2.0 that was built meets the demands of the profile.
  pub new-IsFapi2 :
      new library issuer keys id opts ≡ built p
      → p.profile ≡ Profile.fapi2
      → IsFapi2 library p.config
  new-IsFapi2 h fapi2 = (new-IsValid h).fapi2 fapi2

  -- With a provider of the profile FAPI 2.0 that was built no client can be registered.
  pub fapi2-registers_none :
      (request : Request) (now : ℕ) (req : DynamicClientRequest)
      (s : State (served p library request now)) (resp : DynamicClientResponse)
      → new library issuer keys id opts ≡ built p
      → p.profile ≡ Profile.fapi2
      → (create (served p library request now) req s).0 ≢ ok resp
  fapi2-registers_none request now req s resp h fapi2 made =
      let ctx = served p library request now in
      let created =
        create-ok ctx req s (create ctx req s).1 resp (λ i. (made i, (create ctx req s).1)) in
      is-true-and-false created.registrable.implicit_available (new-IsFapi2 h fapi2).no_implicit
