-- ===== src/Api/Discovery.antt =====
-- The handlers of the metadata and of the key set (internal/discovery/api.go).
use goidc.Api.{Connection, Writer, Answer, metadata, key_set, write, or_error, answer}
use goidc.Discovery.{well_known}
use goidc.Oidc.Context.{Context, State}
use goidc.Oidc.Effect.{ok}
use goidc.Oidc.Keys.{public_keys}

module _ (ctx : Context) (connection : Connection) where
  -- HandlerWellKnown
  unfoldable pub well_known_handler : Writer → State ctx → Answer ctx
  unfolding answer write well_known
  well_known_handler w s =
      answer ctx connection
        (λ document w. or_error connection (write connection (metadata document) 200 w)) w
        (well_known ctx, s)

  -- HandlerJWKS
  unfoldable pub jwks_handler : Writer → State ctx → Answer ctx
  unfolding write public_keys
  jwks_handler w s =
      (ok tt, or_error connection (write connection (key_set (public_keys ctx)) 200 w), s)
