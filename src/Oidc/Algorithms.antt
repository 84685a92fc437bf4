-- ===== src/Oidc/Algorithms.antt =====
-- The lists of algorithms and the URLs that the context derives from the configuration
-- (internal/oidc/context.go).
use goidc.Base.{String, Option, none, some, List, [], ◌∷◌, ◌++◌, ◌<>◌, contains, if◌then◌else◌}
use goidc.Model.Const.ClientAuthn
use goidc.Oidc.Context.{Context}
use goidc.Oidc.Effect.{Outcome, ok, panic}
use goidc.Oidc.Keys.{private_key}
use goidc.Oidc.Library.{Jwk}

abbrev pub algorithm_and : Option Jwk → Outcome (List String) → Outcome (List String)
algorithm_and none rest = panic
algorithm_and (some key) (ok algorithms) = ok (key.algorithm ∷ algorithms)
algorithm_and (some key) rest = rest

module _ (ctx : Context) where
  -- Context.keyEncryptionAlgorithms; a key that the server does not have panics.
  unfoldable pub key_encryption_algorithms : List String → Outcome (List String)
  unfolding private_key
  key_encryption_algorithms [] = ok []
  key_encryption_algorithms (key_id ∷ key_ids) =
      algorithm_and (private_key ctx key_id) (key_encryption_algorithms key_ids)

  -- Context.signatureAlgorithms, of the keys with the IDs.
  unfoldable pub key_signature_algorithms : List String → Outcome (List String)
  unfolding private_key
  key_signature_algorithms [] = ok []
  key_signature_algorithms (key_id ∷ key_ids) =
      algorithm_and (private_key ctx key_id) (key_signature_algorithms key_ids)

  unfoldable pub user_info_signature_algorithms : Outcome (List String)
  unfolding key_signature_algorithms
  user_info_signature_algorithms = key_signature_algorithms ctx.user_info_signature_key_ids

  unfoldable pub jarm_signature_algorithms : Outcome (List String)
  unfolding key_signature_algorithms
  jarm_signature_algorithms = key_signature_algorithms ctx.jarm_signature_key_ids

  unfoldable pub jar_key_encryption_algorithms : Outcome (List String)
  unfolding key_encryption_algorithms
  jar_key_encryption_algorithms = key_encryption_algorithms ctx.jar_key_encryption_ids

  unfoldable pub introspection_client_signature_algorithms : List String
  introspection_client_signature_algorithms =
      let by_key =
        if contains ctx.introspection_client_authn_methods ClientAuthn.private_key_jwt
        then ctx.private_key_jwt_signature_algorithms
        else [] in
      if contains ctx.introspection_client_authn_methods ClientAuthn.secret_jwt
      then by_key ++ ctx.client_secret_jwt_signature_algorithms
      else by_key

  -- Context.BaseURL
  unfoldable pub base_url : String
  base_url = ctx.host <> ctx.path_prefix

  -- Context.MTLSBaseURL
  unfoldable pub mtls_base_url : String
  mtls_base_url = ctx.mtls_host <> ctx.path_prefix
