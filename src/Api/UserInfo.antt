-- ===== src/Api/UserInfo.antt =====
-- The handler of the user info endpoint (internal/userinfo/api.go).
use goidc.Base.{is_empty, if◌then◌else◌}
use goidc.Api.{Connection, Writer, Answer, user_claims, write, write_jwt, or_error, answer}
use goidc.Oidc.Context.{Context, State}
use goidc.UserInfo.{handle_user_info_request}

module _ (ctx : Context) (connection : Connection) where
  -- Handler
  unfoldable pub user_info_handler : Writer → State ctx → Answer ctx
  unfolding answer write write_jwt handle_user_info_request
  user_info_handler w s =
      answer ctx connection
        (λ resp w. or_error connection (
          if is_empty resp.jwt_claims
          then write connection (user_claims resp.claims) 200 w
          else write_jwt connection resp.jwt_claims 200 w))
        w (handle_user_info_request ctx s)
