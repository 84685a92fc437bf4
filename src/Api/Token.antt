-- ===== src/Api/Token.antt =====
-- The handlers of the token endpoint and of introspection (internal/token/api.go).
use goidc.Api.{Connection, Writer, Answer, tokens, introspected, write, or_error, answer}
use goidc.Api.Requests.{new_token_request, new_token_introspection_request}
use goidc.Oidc.Context.{Context, State}
use goidc.Token.Claims.{handle_token_creation}
use goidc.Token.Introspection.{introspect}

module _ (ctx : Context) (connection : Connection) where
  open ctx use {request}

  -- Handler
  unfoldable pub token_handler : Writer → State ctx → Answer ctx
  unfolding answer write new_token_request handle_token_creation
  token_handler w s =
      answer ctx connection (λ resp w. or_error connection (write connection (tokens resp) 200 w)) w
        (handle_token_creation ctx (new_token_request request.form) s)

  -- HandlerIntrospect
  unfoldable pub introspection_handler : Writer → State ctx → Answer ctx
  unfolding answer write new_token_introspection_request introspect
  introspection_handler w s =
      answer ctx connection
        (λ info w. or_error connection (write connection (introspected info) 200 w)) w
        (introspect ctx (new_token_introspection_request request.form) s)
