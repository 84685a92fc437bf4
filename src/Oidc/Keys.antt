-- ===== src/Oidc/Keys.antt =====
-- The keys of the server (internal/oidc/context.go) and of a client (pkg/goidc/client.go).
use goidc.Base.{
  String, Option, none, some, List, [], ◌∷◌, ◌++◌, map, is_empty, if◌then◌else◌, ◌==◌, ◌!=◌, ◌<>◌,
  ◌&&◌,
}
use goidc.Model.Client.{Client}
use goidc.Model.Const.KeyUsage
use goidc.Model.Session.{TokenOptions}
use goidc.Oidc.Context.{Context, State, client_written}
use goidc.Oidc.Library.{Jwk}
use goidc.Storage.{Fetched, found, failed}

abbrev pub head? {ℓ} : {A : Type ℓ} → List A → Option A
head? [] = none
head? (x ∷ xs) = some x

unfoldable pub algorithms_for_signatures : List Jwk → List String
algorithms_for_signatures [] = []
algorithms_for_signatures (key ∷ keys) =
    let rest = algorithms_for_signatures keys in
    if key.usage == KeyUsage.signature then key.algorithm ∷ rest else rest

-- The loop of `encryptionJWK`.
unfoldable pub find_encryption_key : String → List Jwk → Option Jwk
find_encryption_key algorithm [] = none
find_encryption_key algorithm (key ∷ keys) =
    if key.usage == KeyUsage.encryption && key.algorithm == algorithm
    then some key
    else find_encryption_key algorithm keys

module _ (ctx : Context) where
  open ctx use {library, private_jwks}

  -- Context.PrivateKey
  unfoldable pub find_private_key : String → Option Jwk
  find_private_key key_id = head? (library.keys_by_id private_jwks key_id)

  -- Context.privateKey, which indexes the keys that were found: `none` is a panic.
  unfoldable pub private_key : String → Option Jwk
  private_key key_id = head? (library.keys_by_id private_jwks key_id)

  abbrev public_of : Option Jwk → Option Jwk
  public_of none = none
  public_of (some key) = some (library.jwk_public key)

  -- Context.PublicKey
  unfoldable pub public_key : String → Option Jwk
  unfolding find_private_key
  public_key key_id = public_of (find_private_key key_id)

  abbrev signing_key_or : Option Jwk → Option Jwk → Option Jwk
  signing_key_or other none = other
  signing_key_or other (some key) = if key.usage != KeyUsage.signature then other else some key

  -- Context.TokenSignatureKey
  unfoldable pub token_signature_key : TokenOptions → Option Jwk
  unfolding private_key
  token_signature_key options =
      if is_empty options.jwt_signature_key_id
      then private_key ctx.default_token_signature_key_id
      else signing_key_or (private_key ctx.default_token_signature_key_id)
          (head? (library.keys_by_id private_jwks options.jwt_signature_key_id))

  -- Context.privateKeyBasedOnAlgorithmOrDefault: the loop returns in its first round.
  unfoldable pub private_key_based_on_algorithm_or_default :
      String → String → List String → Option Jwk
  unfolding private_key
  private_key_based_on_algorithm_or_default algorithm default_key_id [] = private_key default_key_id
  private_key_based_on_algorithm_or_default algorithm default_key_id (key_id ∷ key_ids) =
      if is_empty algorithm then private_key default_key_id else private_key key_id

  unfoldable pub user_info_signature_key : Client → Option Jwk
  unfolding private_key_based_on_algorithm_or_default
  user_info_signature_key c =
      private_key_based_on_algorithm_or_default c.user_info_signature_algorithm
        ctx.default_user_info_signature_key_id ctx.user_info_signature_key_ids

  unfoldable pub id_token_signature_key : Client → Option Jwk
  unfolding private_key_based_on_algorithm_or_default
  id_token_signature_key c =
      private_key_based_on_algorithm_or_default c.id_token_signature_algorithm
        ctx.default_user_info_signature_key_id ctx.user_info_signature_key_ids

  unfoldable pub jarm_signature_key : Client → Option Jwk
  unfolding private_key_based_on_algorithm_or_default
  jarm_signature_key c =
      private_key_based_on_algorithm_or_default c.jarm_signature_algorithm
        ctx.default_jarm_signature_key_id ctx.jarm_signature_key_ids

  -- Context.SignatureAlgorithms
  unfoldable pub signature_algorithms : List String
  unfolding algorithms_for_signatures
  signature_algorithms = algorithms_for_signatures private_jwks

  -- Context.PublicKeys
  unfoldable pub public_keys : List Jwk
  public_keys = map library.jwk_public private_jwks

  -- Context.ClientSignatureAlgorithms
  unfoldable pub client_signature_algorithms : List String
  client_signature_algorithms =
      ctx.private_key_jwt_signature_algorithms ++ ctx.client_secret_jwt_signature_algorithms

  -- The end of `FetchPublicJWKS`, for a client whose `jwks` was fetched.
  abbrev cache_jwks :
      Client → Fetched String → State ctx → (Fetched (List Jwk) × Client) × State ctx
  cache_jwks c (failed message) s = ((failed message, c), s)
  cache_jwks c (found raw) s =
      let cached = record c { meta = record c.meta { public_jwks = some raw } } in
      ((library.unmarshal_jwks raw, cached), client_written ctx cached s)

  abbrev fetched_jwks :
      Client → Option (Fetched String) → State ctx → (Fetched (List Jwk) × Client) × State ctx
  fetched_jwks c none s = ((failed "could not fetch client jwks", c), s)
  fetched_jwks c (some body) s = cache_jwks c body s

  -- Client.FetchPublicJWKS: the keys, with the client, whose cache of the keys it may have filled.
  unfoldable pub fetch_public_jwks : Client → State ctx → (Fetched (List Jwk) × Client) × State ctx
  unfolding client_written
  fetch_public_jwks c s = elim (c.public_jwks) [
    | some raw ↦ ((library.unmarshal_jwks raw, c), s)
    | none ↦
        if is_empty c.public_jwks_uri
        then ((failed "the client jwks was informed neither by value or by reference", c), s)
        else fetched_jwks c (library.http_get c.public_jwks_uri) s
  ]

  abbrev first_key : Option Jwk → String → Fetched Jwk
  first_key none message = failed message
  first_key (some key) message = found key

  abbrev chosen_key : (List Jwk → Fetched Jwk) → Fetched (List Jwk) → Fetched Jwk
  chosen_key choose (failed message) = failed message
  chosen_key choose (found keys) = choose keys

  -- Client.PublicKey
  unfoldable pub client_public_key :
      String → Client → State ctx → (Fetched Jwk × Client) × State ctx
  unfolding fetch_public_jwks
  client_public_key key_id c s =
      let ((keys, c'), s') = fetch_public_jwks c s in
      (
        (
          chosen_key (λ ks. first_key (head? (library.keys_by_id ks key_id)) "invalid key ID") keys,
          c',
        ),
        s',
      )

  -- Client.encryptionJWK
  unfoldable pub encryption_jwk : String → Client → State ctx → (Fetched Jwk × Client) × State ctx
  unfolding fetch_public_jwks find_encryption_key
  encryption_jwk algorithm c s =
      let ((keys, c'), s') = fetch_public_jwks c s in
      (
        (
          chosen_key
              (λ ks.
                first_key (find_encryption_key algorithm ks)
                  ("invalid key algorithm: " <> algorithm))
              keys,
          c',
        ),
        s',
      )
